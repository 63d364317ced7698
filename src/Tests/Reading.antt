-- ===== src/Tests/Reading.antt =====
-- An EC whose flash holds 300 bytes.
use framework_system.Base.{
  List, [], ◌∷◌, ◌++◌, ℕ, ◌+◌, ◌≤◌, ◌≡◌, refl, ok, err, length, replicate, take, drop, arith, ap,
  zero, suc, length-take-drop, length-replicate,
}
use framework_system.Bytes.{to_le, field, from_le-to_le_u32}
use framework_system.Ec.Driver.{Driver, flash_read_command}
use framework_system.Ec.Flash.{read_ec_flash}
use framework_system.Ec.Flash.Reading.{Readable, read_size, read_ec_flash-Readable}

abbrev flash : List ℕ
flash = replicate 300 0x5A

-- Answers every command as a read.
abbrev reader : Driver
reader = record {
  State = Unit {0};
  send_command = λ command version payload s.
      (ok (take (field payload 4 4) (drop (field payload 0 4) flash)), s);
  read_memory = λ offset length s. (err tt, s);
}

length-flash : length flash ≡ 300
length-flash = length-replicate {A = ℕ} 300 0x5A

reads :
    (s : Unit {0}) (offset n : ℕ)
    → offset + n ≤ length flash
    → reader.send_command flash_read_command 0 ((to_le 4 offset ++ to_le 4 n) ++ []) s
      ≡ (ok (take n (drop offset flash)), s)
unfolding to_le field
reads s offset n h =
    rw
      (
        from_le-to_le_u32 offset (omega (arith, length-flash)),
        from_le-to_le_u32 n (omega (arith, length-flash)),
      )
      refl

exact : (offset n : ℕ) → offset + n ≤ length flash → n ≤ length (take n (drop offset flash))
exact offset n h = omega (arith, length-take-drop flash offset n (omega arith))

twice : (n : ℕ) (xs : List ℕ) → take n (take n xs) ≡ take n xs
twice zero xs = refl
twice (suc n) [] = refl
twice (suc n) (x ∷ xs) = ap (λ (t : List ℕ). x ∷ t) (twice n xs)

abbrev readable : Readable
readable = record {
  driver = reader;
  memory = flash;
  answer = λ offset n s. take n (drop offset flash);
  after = λ offset n s. s;
  answers = reads;
  long_enough = λ s offset n h. exact offset n h;
  correct = λ s offset n h. twice n (drop offset flash);
}

read_ec_flash-Readable_example :
    (read_ec_flash reader 0 300 tt).0 ≡ ok (take (read_size 300) (drop 0 flash))
read_ec_flash-Readable_example =
    read_ec_flash-Readable readable 0 300 tt (omega (arith, length-flash))
