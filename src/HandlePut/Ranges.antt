-- ===== src/HandlePut/Ranges.antt =====
-- The range that a PUT or PATCH writes.
use dav_server_rs.Common.{
  ℕ, ◌+◌, ◌≤◌, ◌<◌, ◌≡◌, refl, subst, Result-cases, true, false, Option, none, some, ok, ◌>>=◌,
  arith, inl, inr, Option-cases, >>=-eq-ok, nat_eq, option_eq, Result-cases, u64_limit,
}
use dav_server_rs.HandlePut.{
  Upload, Target, span, target_new, update_start, patch_target, content_target, check_target,
  put_target,
}

-- A target that may be written: a range, but for an append, ends in the machine's numbers and leaves
-- no hole in a file that exists.
pub record IsInFile (existing : Option ℕ) (t : Target) : Type 0 where
  pub bounded : t.do_range ≡ true → t.appends ≡ false → t.start + t.count < u64_limit
  pub contiguous :
      (len : ℕ) → existing ≡ some len → t.do_range ≡ true → t.appends ≡ false → t.start ≤ len

check_target-IsInFile :
    (existing : Option ℕ) (t : Target) {t' : Target}
    → check_target existing t ≡ ok t'
    → (t ≡ t') × IsInFile existing t
unfolding check_target
check_target-IsInFile none t h =
    (ground arith, record { bounded = λ r a. ground arith; contiguous = λ len e. cc })
check_target-IsInFile (some n) t h =
    (ground arith, record { bounded = λ r a. ground arith; contiguous = λ len e r a. ground arith })

-- What the headers have made of the target: a range, which is never truncated, or the whole file;
-- a Content-Length is the count.
pub record IsTarget (u : Upload) (t : Target) : Type 0 where
  pub kept : t.do_range ≡ true → t.truncates ≡ false
  pub replaced : t.do_range ≡ false → (t.start ≡ 0) × (t.truncates ≡ true) × (t.appends ≡ false)
  pub counted : (n : ℕ) → u.content_length ≡ some n → (t.count ≡ n) × (t.have_count ≡ true)
  pub patched : u.is_patch ≡ true → t.do_range ≡ true

target_new-counted : (u : Upload) (n : ℕ) → u.content_length ≡ some n → (target_new u).count ≡ n
unfolding target_new
target_new-counted u n h = ground arith

content_target-IsTarget :
    (u : Upload) (t : Target) {t' : Target}
    → IsTarget u t
    → content_target u t ≡ ok t'
    → IsTarget u t'
unfolding content_target
content_target-IsTarget u t h e = elim (Result-cases u.content_range) [
  | inr (fault, c) ↦ absurd (ground arith)
  | inl (none, c) ↦ subst (IsTarget u) {x = t} (ground arith) h
  | inl (some none, c) ↦ subst (IsTarget u) {x = t} (ground arith) h
  | inl (some (some (b, z)), c) ↦ elim (Option-cases (span b z)) [
    | inl n ↦ absurd (ground arith)
    | inr (range_len, n) ↦
        subst (IsTarget u)
          {x = record t {
            count = range_len;
            have_count = true;
            start = b;
            do_range = true;
            truncates = false;
          }}
          (ground arith)
          (record {
            kept = λ _. refl;
            replaced = λ r. absurd (ground arith);
            counted = λ m l. (let old = h.counted m l in (ground arith, refl));
            patched = λ _. refl;
          })
  ]
]

patch_target-IsTarget :
    (u : Upload) (existing : Option ℕ) {t : Target}
    → patch_target u existing (target_new u) ≡ ok t
    → IsTarget u t
unfolding patch_target target_new update_start
patch_target-IsTarget u existing {t} e = record {
  kept = λ r. ground arith;
  replaced = λ r. ground arith;
  counted = λ n l. ground arith;
  patched = λ p. ground arith;
}

-- What a PUT or PATCH that passes its checks writes: a PATCH, and every range, keeps the rest of the
-- file, anything else replaces it from its start; a stated Content-Length is the count of the bytes;
-- a range, but for an append, ends within 64 bits and starts within the file, if there is one.
pub put_target_lem :
    (u : Upload) (existing : Option ℕ) {t : Target}
    → put_target u existing ≡ ok t
    → IsTarget u t × IsInFile existing t
unfolding put_target
put_target_lem u existing {t} h =
    let (t₁, e₁, h₁) =
      >>=-eq-ok (patch_target u existing (target_new u))
        (λ t. content_target u t >>= check_target existing) h in
    let (t₂, e₂, h₂) = >>=-eq-ok (content_target u t₁) (check_target existing) h₁ in
    let (same, in_file) = check_target-IsInFile existing t₂ h₂ in
    subst (λ x. IsTarget u x × IsInFile existing x) same
      (content_target-IsTarget u t₁ (patch_target-IsTarget u existing e₁) e₂, in_file)
