-- ===== src/Printk/Ring/Tests.antt =====
-- The log buffer of kernel/lib/printk.c on concrete inputs.
use kernel_v.Base.{◌≡◌, refl, arith, ◌++◌, for_range, take, keep_last, codes}
use kernel_v.Printk.Ring.{ringbuf_write, ringbuf_putc}
use kernel_v.Printk.Ring.Log.{IsValid, contents, ringbuf_write_lem}
use kernel_v.Samples.{late_log, late_log-IsValid}

-- The second byte goes to the buffer's first place.
late_log_wraps : (ringbuf_write (codes "xy") 2 late_log).rb_head ≡ 1
unfolding ringbuf_write ringbuf_putc for_range
late_log_wraps = refl

ringbuf_write_lem_example :
    IsValid (ringbuf_write (codes "xyz") 2 late_log)
    × (contents (ringbuf_write (codes "xyz") 2 late_log)
        ≡ keep_last 1023 (contents late_log ++ take 2 (codes "xyz")))
ringbuf_write_lem_example = ringbuf_write_lem (codes "xyz") 2 late_log-IsValid (omega arith)
