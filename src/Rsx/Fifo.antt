-- ===== src/Rsx/Fifo.antt =====
-- runtime_glue.cpp: `rsx_process_fifo`, which runs the commands up to the put pointer.
pub mod Ends
use dbz_budokai_hd.Common.{
  ℕ, Bool, zero, suc, true, false, ◌&&◌, ◌||◌, ◌+◌, ◌-◌, ◌*◌, ◌^◌, ◌==◌, leb, ltb, if◌then◌else◌,
  Memory, for_range,
}
use dbz_budokai_hd.Common.Words.{u32, add32, low_bits, test_bit, ◌>>>◌}
use dbz_budokai_hd.Common.Outcome.{Outcome, returned, unending, ◌>>=◌}
use dbz_budokai_hd.Guest.{vm_read32}
use dbz_budokai_hd.Rsx.State.{Rsx, rsx_io_to_ea}
use dbz_budokai_hd.Rsx.Handle.{rsx_handle}

abbrev pub cmd_buf_end : ℕ
cmd_buf_end = 0xD0200000

-- The fields of a header.
abbrev pub is_jump : ℕ → Bool
is_jump hdr = test_bit 29 hdr

-- hdr & ~0x20000000u, as an address
abbrev pub jump_target : ℕ → ℕ
jump_target hdr = rsx_io_to_ea (if is_jump hdr then hdr - 0x20000000 else hdr)

abbrev pub method_of : ℕ → ℕ
method_of hdr = low_bits 18 hdr

abbrev pub count_of : ℕ → ℕ
count_of hdr = low_bits 11 (hdr >>> 18)

abbrev pub no_inc : ℕ → Bool
no_inc hdr = test_bit 30 hdr

-- The loop over the arguments of a command.
unfoldable pub run_command : Memory → ℕ → ℕ → Rsx → Rsx
unfolding for_range
run_command m ptr hdr s =
    for_range (count_of hdr) 0
      (λ i t.
        rsx_handle (if no_inc hdr then method_of hdr else method_of hdr + i * 4)
          (vm_read32 m (add32 ptr (4 + i * 4))) t)
      s

-- The command ends after its arguments.
abbrev pub after_command : ℕ → ℕ → ℕ
after_command ptr hdr = add32 ptr (4 + count_of hdr * 4)

-- A command with no arguments, or beyond the buffer, is passed over.
abbrev pub is_skipped : ℕ → ℕ → Bool
is_skipped ptr hdr = count_of hdr == 0 || ltb cmd_buf_end (after_command ptr hdr)

-- One round of the loop: where it goes on, or nowhere, and with which state.
pub data Round : Type 0 where
  break_off : Round
  go : ℕ → Rsx → Round

unfoldable pub fifo_round : Memory → ℕ → Rsx → Round
unfolding run_command
fifo_round m ptr s =
    let hdr = vm_read32 m ptr in
    if hdr == 0
    then go (add32 ptr 4) s
    else if is_jump hdr
    then (if ltb (jump_target hdr) 0xD0100000 || leb cmd_buf_end (jump_target hdr)
        then break_off
        else go (jump_target hdr) s)
    else if is_skipped ptr hdr
    then go (add32 ptr 4) s
    else go (after_command ptr hdr) (run_command m ptr hdr s)

-- while (ptr + 4 <= put_ea && ptr < CMD_BUF_END), with the rounds allowed: a jump back makes it
-- endless.
unfoldable pub fifo_loop : ℕ → Memory → ℕ → ℕ → Rsx → Outcome Rsx
unfolding fifo_round
fifo_loop zero m put_ea ptr s = unending
fifo_loop (suc fuel) m put_ea ptr s = elim (leb (add32 ptr 4) put_ea && ltb ptr cmd_buf_end) [
  | true ↦ elim (fifo_round m ptr s) [
    | break_off ↦ returned s
    | go next t ↦ fifo_loop fuel m put_ea next t
  ]
  | false ↦ returned s
]

unfoldable pub rsx_process_fifo : ℕ → Memory → ℕ → Rsx → Outcome Rsx
unfolding fifo_loop
rsx_process_fifo fuel m put_val s =
    if leb (rsx_io_to_ea put_val) (rsx_io_to_ea s.get_ea)
    then returned (record s { get_ea = put_val })
    else (do
      t ← fifo_loop fuel m (rsx_io_to_ea put_val) (rsx_io_to_ea s.get_ea) s
      returned (record t { get_ea = put_val }))
