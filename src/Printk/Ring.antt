-- ===== src/Printk/Ring.antt =====
-- The circular log buffer of kernel/lib/printk.c.
pub mod Log
mod Tests
use kernel_v.Base.{ℕ, ◌+◌, ◌%◌, List, for_range, ◌==◌, if◌then◌else◌, get_or, set}

abbrev pub log_buf_size : ℕ
log_buf_size = 1024

pub record Ring : Type 0 where
  pub log_buffer : List ℕ
  pub rb_head : ℕ
  pub rb_tail : ℕ

pub ringbuf_putc : ℕ → Ring → Ring
ringbuf_putc ch r =
    let head = (r.rb_head + 1) % log_buf_size in
    record {
      log_buffer = set r.log_buffer r.rb_head ch;
      rb_head = head;
      rb_tail = if head == r.rb_tail then (r.rb_tail + 1) % log_buf_size else r.rb_tail;
    }

-- `str[i]` past the end of the list would be a read out of range.
pub ringbuf_write : List ℕ → ℕ → Ring → Ring
ringbuf_write str str_len r = for_range str_len 0 (λ i. ringbuf_putc (get_or str i 0)) r
