-- ===== src/SelfTests/Console.antt =====
-- kernel/tests/test_printk.c: the messages of every level and format, and the scrolling test.
use kernel_v.Base.{◌++◌, ℕ, zero, suc, ◌+◌, List, [], ◌∷◌, codes, for_range}
use kernel_v.Printk.Level.{
  kern_emerg, kern_alert, kern_crit, kern_err, kern_warning, kern_notice, kern_info, kern_debug,
}
use kernel_v.Printk.{Console, printk}
use kernel_v.Printk.Format.{Arg, word, text}
use kernel_v.Printk.Output.{IsValid, printk-IsValid}
use kernel_v.Vga.{vga_print_string, white_on_black, red_on_white, green_on_black, yellow_on_black}
use kernel_v.Vga.Cursor.{vga_print_string-IsValid}

abbrev print : List ℕ → List Arg → Console → Console
print fmt args c = (printk fmt args c).1

-- A macro `pr_…`, by its level.
abbrev pr_level : (level : List ℕ) → List ℕ → Console → Console
pr_level level fmt c = print (level ++ fmt) [] c

abbrev show : List ℕ → (color : ℕ) → Console → Console
show str color c = record c { screen = vga_print_string str color c.screen }

pub test_levels : Console → Console
test_levels c =
    let c₁ = pr_level kern_info (codes "Kernel initialized successfully.\n") c in
    let c₂ = pr_level kern_emerg (codes "Emergency test message\n") c₁ in
    let c₃ = pr_level kern_alert (codes "Alert test message\n") c₂ in
    let c₄ = pr_level kern_crit (codes "Critical test message\n") c₃ in
    let c₅ = pr_level kern_err (codes "Error test message\n") c₄ in
    let c₆ = pr_level kern_warning (codes "Warning test message\n") c₅ in
    let c₇ = pr_level kern_notice (codes "Notice test message\n") c₆ in
    let c₈ = pr_level kern_debug (codes "Debug test message\n") c₇ in
    print (codes "Regular printk message (defaults to INFO level)\n\n") [] c₈

pub test_colors : Console → Console
test_colors c =
    let c₁ = show (codes "Testing different colors:\n") white_on_black c in
    let c₂ = show (codes "White on Black\n") white_on_black c₁ in
    let c₃ = show (codes "Red on White\n") red_on_white c₂ in
    let c₄ = show (codes "Green on Black\n") green_on_black c₃ in
    show (codes "Yellow on Black\n") yellow_on_black c₄

pub test_formats : Console → Console
test_formats c =
    let c₁ = print (codes "\nTesting printk formatting:\n") [] c in
    let c₂ = print (codes "String: %s\n") (text (codes "Hello World") ∷ []) c₁ in
    let c₃ = print (codes "Character: %c\n") (word b'A' ∷ []) c₂ in
    let c₄ = print (codes "Decimal: %d\n") (word 42 ∷ []) c₃ in
    let c₅ = print (codes "Hexadecimal: 0x%x\n") (word 255 ∷ []) c₄ in
    print (codes "Pointer: %p\n") (word 0xDEADBEEF ∷ []) c₅

pub run_printk_tests : Console → Console
run_printk_tests c = test_formats (test_colors (test_levels c))

pub run_printk_scrolling_test : Console → Console
run_printk_scrolling_test c =
    for_range 30 0
      (λ i. print (codes "Line %d - Testing kernel scrolling functionality\n") (word i ∷ []))
      (print (codes "\nScrolling test:\n") [] c)

show-IsValid : (str : List ℕ) (color : ℕ) {c : Console} → IsValid c → IsValid (show str color c)
show-IsValid str color v = record {
  ring_valid = v.ring_valid;
  screen_valid = vga_print_string-IsValid str color v.screen_valid;
}

test_levels-IsValid : {c : Console} → IsValid c → IsValid (test_levels c)
unfolding test_levels
test_levels-IsValid v =
    tell _ _
      (tell _ _ (tell _ _ (tell _ _ (tell _ _ (tell _ _ (tell _ _ (tell _ _ (tell _ _ v))))))))
  where
    tell : (fmt : List ℕ) (args : List Arg) {c : Console} → IsValid c → IsValid (print fmt args c)
    tell = printk-IsValid

test_colors-IsValid : {c : Console} → IsValid c → IsValid (test_colors c)
unfolding test_colors
test_colors-IsValid v =
    show-IsValid _ _ (show-IsValid _ _ (show-IsValid _ _ (show-IsValid _ _ (show-IsValid _ _ v))))

test_formats-IsValid : {c : Console} → IsValid c → IsValid (test_formats c)
unfolding test_formats
test_formats-IsValid v = tell _ _ (tell _ _ (tell _ _ (tell _ _ (tell _ _ (tell _ _ v)))))
  where
    tell : (fmt : List ℕ) (args : List Arg) {c : Console} → IsValid c → IsValid (print fmt args c)
    tell = printk-IsValid

scrolled-IsValid :
    (n i : ℕ) {c : Console}
    → IsValid c
    → IsValid (
        for_range n i
          (λ i. print (codes "Line %d - Testing kernel scrolling functionality\n") (word i ∷ []))
          c)
unfolding for_range
scrolled-IsValid zero i v = v
scrolled-IsValid (suc n) i v = scrolled-IsValid n (i + 1) (printk-IsValid _ _ v)

-- From a valid console the tests of printk, and then the scrolling test, leave a valid console: the
-- log's indices in their buffer, and the cursor on the screen and shown by the hardware.
pub run_printk_tests-IsValid :
    {c : Console} → IsValid c → IsValid (run_printk_scrolling_test (run_printk_tests c))
unfolding run_printk_tests run_printk_scrolling_test
run_printk_tests-IsValid v =
    scrolled-IsValid 30 0
      (printk-IsValid _ _ (test_formats-IsValid (test_colors-IsValid (test_levels-IsValid v))))
