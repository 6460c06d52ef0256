-- ===== src/Boot/Laws.antt =====
-- main.cpp: what `elf_load` leaves in the guest's memory.
use dbz_budokai_hd.Common.{
  ℕ, Bool, zero, suc, true, false, ◌&&◌, ◌||◌, ◌+◌, ◌-◌, ◌^◌, ◌<◌, ◌≤◌, ◌≡◌, inl, inr, ◌⊎◌, ◌↔◌,
  refl, sym, ap, ◌∙◌, ◌==◌, leb, ltb, not, if◌then◌else◌, arith, Memory, memcpy, memset, Bool-cases,
}
use mathlib.Core.Bool.{false≢true}
use native.Mathlib.Decide.{dec_le}
use dbz_budokai_hd.Common.Outcome.{returned}
use dbz_budokai_hd.Boot.{
  Image, Segment, commits, is_committed, is_accessible, is_passed, dest, copy_fits, copy_file,
  clear_rest, fill_segment, header_place, segment, load_from, is_elf, e_phnum, elf_load,
}

-- The four runs of bytes that the regions make.
abbrev InRun : ℕ → Type 0
InRun a =
    (a < 0x10010000)
    ⊎ (((0xD0000000 ≤ a) × (a < 0xE0001000))
        ⊎ (((0xFEED0000 ≤ a) × (a < 0xFEEE0000)) ⊎ ((0xFFFF0000 ≤ a) × (a < 2 ^ 32))))

run_of : (a : ℕ) → is_committed commits a ≡ true → InRun a
run_of a e = ground (arith, e)

module _ (lo n : ℕ) (all : (k : ℕ) → k < n → is_committed commits (lo + k) ≡ true) where
  -- A block that begins below a byte that is not committed ends before it.
  ends_before : (stop : ℕ) → lo < stop → is_committed commits stop ≡ false → lo + n ≤ stop
  ends_before stop below gap = elim (dec_le (lo + n) stop) [
    | yes h ↦ h
    | no h ↦
        let place : lo + (stop - lo) ≡ stop = omega arith in
        absurd (
          false≢true
            (sym gap ∙ sym (ap (is_committed commits) place) ∙ all (stop - lo) (omega (arith, h))))
  ]

  run_accessible : InRun lo → is_accessible lo n ≡ true
  unfolding is_accessible
  run_accessible (inl h) = let e = ends_before 0x10010000 h refl in ground (arith, e)
  run_accessible (inr (inl (g, h))) = let e = ends_before 0xE0001000 h refl in ground (arith, e, g)
  run_accessible (inr (inr (inl (g, h)))) =
      let e = ends_before 0xFEEE0000 h refl in ground (arith, e, g)
  run_accessible (inr (inr (inr (g, h)))) =
      let e = ends_before (2 ^ 32) h refl in ground (arith, e, g)

-- A block passes the test if and only if each of its bytes is committed.
pub is_accessible_iff :
    (lo n : ℕ)
    → 0 < n
    → (is_accessible lo n ≡ true) ↔ ((k : ℕ) → k < n → is_committed commits (lo + k) ≡ true)
unfolding is_accessible
is_accessible_iff lo n some_there = (
  λ e k h. ground (arith, e, h),
  λ all.
      let first : is_committed commits lo ≡ true =
        let same : lo + 0 ≡ lo = omega arith in
        sym (ap (is_committed commits) same) ∙ all 0 some_there in
      run_accessible lo n all (run_of lo first),
)

-- The bytes that a segment has in the memory.
abbrev pub extent : Segment → ℕ
extent g = if leb g.seg_memsz g.seg_filesz then g.seg_filesz else g.seg_memsz

-- The segment lies in the file, and all its bytes in memory that is committed.
abbrev pub Fits : Image → Segment → Type 0
Fits f g =
    (g.seg_off + g.seg_filesz ≤ f.fsize)
    × ((k : ℕ) → k < extent g → is_committed commits (dest g + k) ≡ true)

-- The same, by the test of the code.
abbrev IsChecked : Image → Segment → Type 0
IsChecked f g = (g.seg_off + g.seg_filesz ≤ f.fsize) × (is_accessible (dest g) (extent g) ≡ true)

-- The header lies in the file, and its segment, unless it is passed over, fits.
abbrev pub IsSound : Image → ℕ → Type 0
IsSound f i =
    let g = segment f i in (header_place f i + 48 ≤ f.fsize) × ((is_passed g ≡ true) ⊎ Fits f g)

-- The addresses that a segment fills.
abbrev pub covers : Segment → ℕ → Bool
covers g a =
    not (is_passed g)
    && leb (dest g) a
    && (ltb a (dest g + g.seg_filesz) || ltb a (dest g + g.seg_memsz))

-- What stands there: a byte of the file, or 0.
abbrev pub byte_for : Image → Segment → ℕ → ℕ
byte_for f g a = if ltb a (dest g + g.seg_filesz) then f.elf (g.seg_off + (a - dest g)) else 0

-- What a segment makes of a byte.
abbrev Filled : Image → Segment → Memory → Memory → Type 0
Filled f g m n = (a : ℕ) → n a ≡ (if covers g a then byte_for f g a else m a)

copy_file_lem :
    (f : Image) (g : Segment) (m : Memory)
    → IsChecked f g
    → (n : Memory) × (copy_file f g m ≡ returned n)
      × ((a : ℕ)
          → n a ≡ (if leb (dest g) a && ltb a (dest g + g.seg_filesz) then byte_for f g a else m a))
unfolding copy_file memcpy is_accessible
copy_file_lem f g m (p, q) = elim (Bool-cases (g.seg_filesz == 0)) [
  | inl none_there ↦ (m, rw none_there refl, λ a. ground arith)
  | inr some_there ↦
      let fits : copy_fits f g ≡ true = ground arith in
      (
        memcpy m (dest g) f.elf g.seg_off g.seg_filesz,
        rw (some_there, fits) refl,
        λ a. ground arith,
      )
]

clear_rest_lem :
    (g : Segment) (m : Memory)
    → is_accessible (dest g) (extent g) ≡ true
    → (n : Memory) × (clear_rest g m ≡ returned n)
      × ((a : ℕ)
          → n a
            ≡ (if leb (dest g + g.seg_filesz) a && ltb a (dest g + g.seg_memsz) then 0 else m a))
unfolding clear_rest memset is_accessible
clear_rest_lem g m r = elim (Bool-cases (leb g.seg_memsz g.seg_filesz)) [
  | inl none_left ↦ (m, rw none_left refl, λ a. ground arith)
  | inr some_left ↦
      let fits : is_accessible (dest g + g.seg_filesz) (g.seg_memsz - g.seg_filesz) ≡ true =
        ground arith in
      (
        memset m (dest g + g.seg_filesz) 0 (g.seg_memsz - g.seg_filesz),
        rw (some_left, fits) refl,
        λ a. ground arith,
      )
]

-- A segment that is not passed over has bytes, and passes the test if it fits.
used-IsChecked :
    (f : Image) (g : Segment)
    → is_passed g ≡ false
    → (is_passed g ≡ true) ⊎ Fits f g
    → IsChecked f g
used-IsChecked f g used (inl passed) = absurd (false≢true (sym used ∙ passed))
used-IsChecked f g used (inr (inside, all)) =
    let some_there : 0 < extent g = ground (arith, used) in
    (inside, (is_accessible_iff (dest g) (extent g) some_there).1 all)

fill_segment-Filled :
    (f : Image) (g : Segment) (m : Memory) (loaded : ℕ)
    → (is_passed g ≡ true) ⊎ Fits f g
    → (n : Memory) × (fill_segment f g m loaded
        ≡ returned (n, if is_passed g then loaded else loaded + 1))
      × Filled f g m n
unfolding fill_segment
fill_segment-Filled f g m loaded fits = elim (Bool-cases (is_passed g)) [
  | inl passed ↦ (m, rw passed refl, λ a. rw passed refl)
  | inr used ↦
      let fit = used-IsChecked f g used fits in
      let (n, e, at_n) = copy_file_lem f g m fit in
      let (o, d, at_o) = clear_rest_lem g n fit.1 in
      (o, rw (used, e, d) refl, λ a. rw (used, at_o a, at_n a) (ground arith))
]

-- No segment from i on covers the address.
abbrev pub Untouched : Image → ℕ → ℕ → ℕ → Type 0
Untouched f i left a = (j : ℕ) → i ≤ j → j < i + left → covers (segment f j) a ≡ false

-- The headers from i on are sound.
abbrev pub AreSound : Image → ℕ → ℕ → Type 0
AreSound f i left = (j : ℕ) → i ≤ j → j < i + left → IsSound f j

-- Each address has what the last segment that covers it puts there.
abbrev pub Placed : Image → ℕ → ℕ → Memory → Memory → Type 0
Placed f i left m n =
    ((a : ℕ) → Untouched f i left a → n a ≡ m a)
    × ((a j : ℕ)
        → i ≤ j
        → j < i + left
        → covers (segment f j) a ≡ true
        → Untouched f (j + 1) (i + left - (j + 1)) a
        → n a ≡ byte_for f (segment f j) a)

load_from-Placed :
    (f : Image) (left i : ℕ) (m : Memory) (loaded : ℕ)
    → AreSound f i left
    → (n : Memory) × (count : ℕ) × (load_from f left i m loaded ≡ returned (n, count))
      × Placed f i left m n
unfolding load_from
load_from-Placed f zero i m loaded sound =
    (m, loaded, refl, ((λ a u. refl), λ a j low high c u. absurd (omega arith)))
load_from-Placed f (suc left) i m loaded sound =
    let (inside, fits) = sound i (omega arith) (omega arith) in
    let within : leb (header_place f i + 48) f.fsize ≡ true = ground arith in
    let (o, e, filled) = fill_segment-Filled f (segment f i) m loaded fits in
    let here = if is_passed (segment f i) then loaded else loaded + 1 in
    let (n, count, d, (kept, placed)) =
      load_from-Placed f left (i + 1) o here (λ j low high. sound j (omega arith) (omega arith)) in
    (
      n,
      count,
      rw (within, e) d,
      (
        (λ a u.
            kept a (λ j low high. u j (omega arith) (omega arith))
            ∙ filled a
            ∙ (rw (u i (omega arith) (omega arith)) refl)),
        λ a j low high c u. elim (Bool-cases (j == i)) [
          | inl same ↦
              let at_i : j ≡ i = ground arith in
              let covered : covers (segment f i) a ≡ true =
                sym (ap (λ k. covers (segment f k) a) at_i) ∙ c in
              kept a (λ k l h. u k (omega arith) (omega arith))
              ∙ filled a
              ∙ (rw covered refl)
              ∙ sym (ap (λ k. byte_for f (segment f k) a) at_i)
          | inr other ↦ placed a j (ground arith) (omega arith) c (λ k l h. u k l (omega arith))
        ],
      ),
    )

-- When a file of at least 58 bytes begins with the magic number, and each header lies in the file
-- and its segment, unless it is passed over, in the file and in memory that vm_init commits, the
-- file is loaded without an undefined access. A byte of the memory that no loaded segment covers
-- is then as before; a byte that one covers has what the last of them has there, a byte of the
-- file, or 0 behind the bytes from the file.
pub elf_load-Placed :
    (f : Image) (m : Memory)
    → 0x3A ≤ f.fsize
    → is_elf f.elf ≡ true
    → AreSound f 0 (e_phnum f)
    → (b : Bool) × (n : Memory) × (elf_load f m ≡ returned (b, n)) × Placed f 0 (e_phnum f) m n
unfolding elf_load
elf_load-Placed f m long magic sound =
    let short : ltb f.fsize 4 ≡ false = ground arith in
    let headed : ltb f.fsize 0x3A ≡ false = ground arith in
    let (n, count, e, placed) = load_from-Placed f (e_phnum f) 0 m 0 sound in
    (ltb 0 count, n, rw (short, magic, headed, e) refl, placed)
