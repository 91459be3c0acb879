-- ===== src/Model/Naming.antt =====
-- internal/model/model.go: VMName, `fmt.Sprintf("%s-%0*d", prefix, pad, n)`, and TotalDataGiB.
use mathlib.Core.List.{append_cancel_left}
use ghostfleet.Base.{
  ℕ, zero, suc, ◌+◌, ◌-◌, ◌*◌, ◌/◌, ◌%◌, ◌<◌, ◌≡◌, refl, sym, ap, ◌∙◌, [], ◌∷◌, ◌++◌, arith, ltb,
  if◌then◌else◌, Bool-cases, inl, inr, Name, length, replicate, All,
}
use ghostfleet.Model.Spec.{ProfileSpec}

-- The decimal digits of n, put in front of acc; `n` is fuel enough.
unfoldable pub decimal : ℕ → ℕ → Name → Name
decimal zero n acc = acc
decimal (suc f) n acc =
    let rest = decimal f (n / 10) ((48 + n % 10) ∷ acc) in if ltb n 10 then (48 + n) ∷ acc else rest

unfoldable pub pad_zeros : ℕ → Name → Name
pad_zeros w ds = replicate (w - length ds) b'0' ++ ds

unfoldable pub vm_name : ProfileSpec → ℕ → Name
unfolding decimal pad_zeros
vm_name s n = s.name_prefix ++ (b'-' ∷ pad_zeros s.name_pad (decimal (suc n) n []))

unfoldable pub total_data_gib : ProfileSpec → ℕ
total_data_gib s = s.vm_count * s.disks_per_vm * s.data_per_disk_gib

-- The number that digits stand for, read after the value v.
read_digits : ℕ → Name → ℕ
read_digits v [] = v
read_digits v (c ∷ cs) = read_digits (10 * v + (c - 48)) cs

read-decimal : (f n : ℕ) (acc : Name) → n < f → read_digits 0 (decimal f n acc) ≡ read_digits n acc
unfolding decimal read_digits
read-decimal zero n acc h = elim h [ ]
read-decimal (suc f) n acc h = elim (Bool-cases (ltb n 10)) [
  | inl small ↦ rw small (ap (λ v. read_digits v acc) (omega arith))
  | inr more ↦ rw more (
      read-decimal f (n / 10) ((48 + n % 10) ∷ acc) (ground arith)
      ∙ ap (λ v. read_digits v acc) (omega arith))
]

read-zeros : (k : ℕ) (ds : Name) → read_digits 0 (replicate k b'0' ++ ds) ≡ read_digits 0 ds
unfolding read_digits
read-zeros zero ds = refl
read-zeros (suc k) ds = read-zeros k ds

read-padded : (w n : ℕ) → read_digits 0 (pad_zeros w (decimal (suc n) n [])) ≡ n
unfolding pad_zeros
read-padded w n =
    read-zeros _ (decimal (suc n) n [])
    ∙ read-decimal (suc n) n [] (omega arith)
    ∙ (unfold read_digits in refl)

pub decimal-injective : (n m : ℕ) → decimal (suc n) n [] ≡ decimal (suc m) m [] → n ≡ m
decimal-injective n m h =
    sym (read-decimal (suc n) n [] (omega arith) ∙ (unfold read_digits in refl))
    ∙ ap (read_digits 0) h
    ∙ (read-decimal (suc m) m [] (omega arith) ∙ (unfold read_digits in refl))

-- Every digit is a byte other than 0.
pub decimal-nonzero :
    (f n : ℕ) (acc : Name) → All (λ c. 0 < c) acc → All (λ c. 0 < c) (decimal f n acc)
unfolding decimal
decimal-nonzero zero n acc h = h
decimal-nonzero (suc f) n acc h = elim (Bool-cases (ltb n 10)) [
  | inl small ↦ rw small (omega arith, h)
  | inr more ↦ rw more (decimal-nonzero f (n / 10) ((48 + n % 10) ∷ acc) (omega arith, h))
]

-- The number behind the dash.
read_tail : Name → ℕ
read_tail [] = 0
read_tail (c ∷ cs) = read_digits 0 cs

read_tail-padded : (w n : ℕ) → read_tail (b'-' ∷ pad_zeros w (decimal (suc n) n [])) ≡ n
unfolding read_tail
read_tail-padded w n = read-padded w n

dash_part : ProfileSpec → ℕ → Name
dash_part s n = b'-' ∷ pad_zeros s.name_pad (decimal (suc n) n [])

vm_name-dash : (s : ProfileSpec) (n : ℕ) → vm_name s n ≡ s.name_prefix ++ dash_part s n
unfolding vm_name dash_part
vm_name-dash s n = refl

read-dash : (s : ProfileSpec) (n : ℕ) → read_tail (dash_part s n) ≡ n
unfolding dash_part
read-dash s n = read_tail-padded s.name_pad n

-- Two VMs of a fleet have the same name only if they have the same number.
pub vm_name-injective : (s : ProfileSpec) (n m : ℕ) → vm_name s n ≡ vm_name s m → n ≡ m
vm_name-injective s n m h =
    let tails =
      append_cancel_left s.name_prefix (dash_part s n) (dash_part s m)
        (sym (vm_name-dash s n) ∙ h ∙ vm_name-dash s m) in
    sym (read-dash s n) ∙ ap read_tail tails ∙ read-dash s m
