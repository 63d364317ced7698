-- ===== src/Ccgx/Device/Reading.antt =====
-- Reading registers of a PD controller in chunks: what is read, and when the loop ends.
use framework_system.Base.{
  ℕ, zero, suc, ◌+◌, ◌-◌, ◌≤◌, ◌<◌, ◌≡◌, ◌^◌, min, refl, sym, ap, ◌∙◌, arith, List, [], ◌∷◌, ◌++◌,
  length, take, drop, Bool, true, false, ltb, lt→ltb, le→not_ltb, none, some, ok, length-append,
  length-take-drop, take-append-drop-take, drop-drop, index, slice_from_in_range, slice_from, not,
  ◌||◌,
}
use native.Mathlib.Decide.{dec_le}
use framework_system.Ec.Status.{EcError}
use mathlib.Core.List.{append-nil, append_assoc}
use framework_system.Ec.Driver.{Driver}
use framework_system.Ec.Mec.Spans.{add_u16-small}
use framework_system.Ccgx.Device.{
  Platform, PdPort, i2c_address, i2c_port, i2c_passthrough_command, passthru_buffer, i2c_read,
  ccgx_read, is_successful,
}

-- Two neighbouring pieces of a list are one piece.
neighbours :
    (n left from place total : ℕ) (xs : List ℕ)
    → place ≡ from + n
    → total ≡ n + left
    → take n (drop from xs) ++ take left (drop place xs) ≡ take total (drop from xs)
neighbours n left from place total xs e1 e2 =
    rw (e1, e2, sym (drop-drop n from xs)) (take-append-drop-take n left (drop from xs))

either : (debug : Bool) → (not debug || true) ≡ true
either true = refl
either false = refl

-- A PD controller behind an EC: it answers a read of at most 128 bytes inside its registers.
pub record Controller : Type 1 where
  pub driver : Driver
  pub platform : Platform
  pub port : PdPort
  pub registers : List ℕ
  pub address_fits : i2c_address platform port < 2 ^ 15
  pub registers_fit : length registers ≤ 2 ^ 16
  pub answers :
      (s : driver.State) (addr len : ℕ)
      → addr + len ≤ length registers
      → len ≤ 128
      → driver.send_command i2c_passthrough_command 0
          (passthru_buffer
            (i2c_port platform port)
            (i2c_address platform port)
            (i2c_address platform port + 2 ^ 15)
            addr
            len)
          s
        ≡ (ok (0 ∷ 2 ∷ take len (drop addr registers)), s)

module _ (C : Controller) where
  i2c_read-Controller :
      (debug : Bool) (addr len : ℕ) (s : C.driver.State)
      → addr + len ≤ length C.registers
      → len ≤ 128
      → i2c_read C.driver C.platform C.port debug addr len s
        ≡ (ok (0, take len (drop addr C.registers)), s)
  unfolding i2c_read index
  i2c_read-Controller debug addr len s h k =
      let bytes = take len (drop addr C.registers) in
      rw
        (
          le→not_ltb 128 len k,
          add_u16-small debug (i2c_address C.platform C.port) (2 ^ 15)
              (omega (arith, C.address_fits)),
          C.answers s addr len h k,
          slice_from_in_range {E = EcError} (0 ∷ 2 ∷ bytes) 2 (omega arith),
          either debug,
        )
        refl

  -- The rounds go on from the data so far; each of them reads one byte at least.
  ccgx_read-rounds :
      (debug : Bool) (fuel addr len : ℕ) (so_far : List ℕ) (s : C.driver.State)
      → length so_far ≤ len
      → len ≤ length so_far + fuel
      → addr + len ≤ length C.registers
      → ccgx_read C.driver C.platform C.port debug fuel addr len so_far s
        ≡ some
            (ok (so_far ++ take (len - length so_far) (drop (addr + length so_far) C.registers)), s)
  unfolding ccgx_read is_successful
  ccgx_read-rounds debug zero addr len so_far s h k r =
      let done : len - length so_far ≡ 0 = omega arith in
      rw (ccgx_read, le→not_ltb (length so_far) len (omega arith), done, append-nil so_far) refl
  ccgx_read-rounds debug (suc fuel) addr len so_far s h k r = elim (dec_le len (length so_far)) [
    | yes end ↦
        let done : len - length so_far ≡ 0 = omega arith in
        rw (le→not_ltb (length so_far) len end, done, append-nil so_far) refl
    | no more ↦
        let n = min 128 (len - length so_far) in
        let from = addr + length so_far in
        let bytes = take n (drop from C.registers) in
        let sum_fits =
          add_u16-small {E = EcError} debug addr (length so_far) (omega (arith, C.registers_fit)) in
        let read = i2c_read-Controller debug from n s (omega arith) (omega arith) in
        let grown : length (so_far ++ bytes) ≡ length so_far + n =
          omega (
            arith,
            length-append so_far bytes,
            length-take-drop C.registers from n (omega arith),
          ) in
        let rest =
          ccgx_read-rounds debug fuel addr len (so_far ++ bytes) s (omega (arith, grown))
            (omega (arith, grown)) r in
        let left = len - length (so_far ++ bytes) in
        let tail = take left (drop (addr + length (so_far ++ bytes)) C.registers) in
        let place : addr + length (so_far ++ bytes) ≡ from + n = omega (arith, grown) in
        let count : len - length so_far ≡ n + left = omega (arith, grown) in
        let joined : bytes ++ tail ≡ take (len - length so_far) (drop from C.registers) =
          neighbours n left from _ _ C.registers place count in
        let last : so_far ++ bytes ++ tail
            ≡ so_far ++ take (len - length so_far) (drop from C.registers) =
          append_assoc so_far bytes tail ∙ ap (λ (t : List ℕ). so_far ++ t) joined in
        rw (lt→ltb (length so_far) len (omega arith), sum_fits, read)
          (rest ∙ ap (λ (t : List ℕ). some (ok t, s)) last)
  ]

  -- A controller that answers every read, with an address below 0x8000 and at most 2^16 registers, is
  -- read to the end, and `len` rounds are enough: the result is the bytes of its registers.
  pub ccgx_read-Controller :
      (debug : Bool) (addr len : ℕ) (s : C.driver.State)
      → addr + len ≤ length C.registers
      → ccgx_read C.driver C.platform C.port debug len addr len [] s
        ≡ some (ok (take len (drop addr C.registers)), s)
  ccgx_read-Controller debug addr len s h =
      let whole : len - 0 ≡ len = omega arith in
      let start : addr + 0 ≡ addr = omega arith in
      rw (whole, start) at (ccgx_read-rounds debug len addr len [] s (omega arith) (omega arith) h)

-- An EC that reports success without data keeps the loop going for ever, for an address below 0x8000
-- and a register below 2^16: no fuel is enough for it.
pub ccgx_read_never_ends :
    (D : Driver) (platform : Platform) (port : PdPort) (debug : Bool) (fuel addr len : ℕ)
    (s : D.State)
    → i2c_address platform port < 2 ^ 15
    → addr < 2 ^ 16
    → ((addr' len' : ℕ)
        → D.send_command i2c_passthrough_command 0
            (passthru_buffer
              (i2c_port platform port)
              (i2c_address platform port)
              (i2c_address platform port + 2 ^ 15)
              addr'
              len')
            s
          ≡ (ok (0 ∷ 2 ∷ []), s))
    → 0 < len
    → ccgx_read D platform port debug fuel addr len [] s ≡ none
unfolding ccgx_read is_successful i2c_read index slice_from
ccgx_read_never_ends D platform port debug zero addr len s a f silent h = rw (lt→ltb 0 len h) refl
ccgx_read_never_ends D platform port debug (suc fuel) addr len s a f silent h =
    let small : ltb 128 (min 128 (len - 0)) ≡ false = le→not_ltb _ _ (omega arith) in
    rw
      (
        lt→ltb 0 len h,
        add_u16-small {E = EcError} debug addr 0 (omega (arith, f)),
        small,
        add_u16-small {E = EcError} debug (i2c_address platform port) (2 ^ 15) (omega (arith, a)),
        silent,
        either debug,
      )
      (ccgx_read_never_ends D platform port debug fuel addr len s a f silent h)
