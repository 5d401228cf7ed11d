-- ===== src/Printk/Tests.antt =====
-- `printk` and `my_vsnprintf` of kernel/lib/printk.c on concrete inputs.
use kernel_v.Base.{
  ◌+◌, ◌-◌, ◌≡◌, ◌≢◌, ◌^◌, refl, arith, inl, [], ◌∷◌, ◌++◌, take, length, some, codes, false,
}
use kernel_v.Vga.{white_on_black}
use kernel_v.Vga.Paper.{print, blank_paper}
use kernel_v.Printk.{printk, level_prefix, has_level}
use kernel_v.Printk.Format.{word, my_vsnprintf, dec_digits, unsigned_digits}
use kernel_v.Printk.Format.Correct.{my_vsnprintf-Renders}
use kernel_v.Printk.Format.Digits.{dec_digits-IsDecimal, unsigned_digits-ne}
use kernel_v.Printk.Level.{level_at}
use kernel_v.Printk.Output.{After, printk-level}
use kernel_v.Samples.{
  console, console-IsValid, blank_screen-Shows, n_format, n_text, n_format-Renders,
}

my_vsnprintf-Renders_example : my_vsnprintf 5 n_format (word 7 ∷ []) ≡ some (take (5 - 1) n_text)
my_vsnprintf-Renders_example =
    my_vsnprintf-Renders 5 n_format n_text (word 7 ∷ []) n_format-Renders (omega arith) (inl refl)

cut_to_four : my_vsnprintf 5 n_format (word 7 ∷ []) ≡ some (codes "n=00")
cut_to_four = my_vsnprintf-Renders_example

unsigned_digits-ne_example : unsigned_digits (2 ^ 31) ≢ dec_digits 12 (2 ^ 31)
unsigned_digits-ne_example =
    unsigned_digits-ne (2 ^ 31) (dec_digits 12 (2 ^ 31)) (omega arith) (omega arith)
      (dec_digits-IsDecimal 11 (2 ^ 31) (omega arith))

printk-level_example :
    let level = level_at (b'3' - b'0') in
    let out = printk (1 ∷ b'3' ∷ n_format) (word 7 ∷ []) console in
    (level.level_char ≡ b'3')
    × (out.0 ≡ length (level_prefix level) + length (take 1023 n_text))
    × After console
        (level_prefix level ++ take 1023 n_text)
        (print
          (take 1023 n_text)
          white_on_black
          (print (level_prefix level) level.color blank_paper))
        out.1
printk-level_example =
    printk-level n_text (word 7 ∷ []) b'3' n_format (omega arith) (omega arith) n_format-Renders
      (inl refl) console-IsValid blank_screen-Shows

no_level_first : has_level n_format ≡ false
no_level_first = refl
