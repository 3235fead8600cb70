-- ===== src/Database/Util.antt =====
-- database/util.go: the number of an advisory lock, and the flag of a driver that is put back on an error.
use migrate.Prelude.{
  ℕ, ◌*◌, ◌%◌, ◌^◌, ◌<◌, ◌≡◌, sym, ap, ◌∙◌, Bool, true, false, not, Bytes, Option, none, some, List,
  [], ◌↔◌, ◌∷◌, ◌++◌, if◌then◌else◌, arith, inl, inr, Bool-cases,
}
use migrate.Prelude.Decimal.{decimal, digits_value, digits_value-decimal}
use migrate.Errors.{Error}

-- `advisoryLockIDSalt`.
abbrev pub advisory_lock_id_salt : ℕ
advisory_lock_id_salt = 1486364155

-- `strings.Join`.
abbrev join_more : Bytes → Bytes → List Bytes → Bytes
join_more s sep [] = s
join_more s sep (t ∷ ts) = s ++ (sep ++ join_more t sep ts)

abbrev join : Bytes → List Bytes → Bytes
join sep [] = []
join sep (s ∷ ss) = join_more s sep ss

-- `databaseName`, with the additional names before it and a zero byte between two of them.
abbrev pub lock_name : Bytes → List Bytes → Bytes
lock_name database_name [] = database_name
lock_name database_name (name ∷ names) = join (0 ∷ []) ((name ∷ names) ++ database_name ∷ [])

-- `sum * uint32(advisoryLockIDSalt)`.
abbrev pub salted : ℕ → ℕ
salted sum = (sum * advisory_lock_id_salt) % 2 ^ 32

module _ (checksum : Bytes → ℕ) where
  -- `GenerateAdvisoryLockId`; `checksum` is `crc32.ChecksumIEEE`, whose error is always nil.
  unfoldable pub generate_advisory_lock_id : Bytes → List Bytes → Bytes
  generate_advisory_lock_id database_name additional_names =
      decimal (salted (checksum (lock_name database_name additional_names)))

  abbrev pub id_of : Bytes → List Bytes → ℕ
  id_of database_name additional_names =
      digits_value 0 (generate_advisory_lock_id database_name additional_names)

  salted-inj : (a b : ℕ) → a < 2 ^ 32 → b < 2 ^ 32 → salted a ≡ salted b → a ≡ b
  salted-inj a b la lb h = omega arith

  -- The text of a lock id is the decimal of a number of 32 bits, and two locks have the same id exactly if the
  -- checksums of their names agree: the salt, which is odd, loses nothing. The checksum is taken to have 32 bits.
  pub generate_advisory_lock_id_lem :
      ((name : Bytes) → checksum name < 2 ^ 32)
      → (a b : Bytes) (xs ys : List Bytes)
      → (id_of a xs < 2 ^ 32)
        × ((generate_advisory_lock_id a xs ≡ generate_advisory_lock_id b ys)
            ↔ (checksum (lock_name a xs) ≡ checksum (lock_name b ys)))
  unfolding generate_advisory_lock_id
  generate_advisory_lock_id_lem small a b xs ys = (
    omega (arith, digits_value-decimal (salted (checksum (lock_name a xs)))),
    (
      (λ h.
          salted-inj (checksum (lock_name a xs)) (checksum (lock_name b ys))
            (small (lock_name a xs)) (small (lock_name b ys))
            (sym (digits_value-decimal (salted (checksum (lock_name a xs))))
              ∙ ap (digits_value 0) h
              ∙ digits_value-decimal (salted (checksum (lock_name b ys))))),
      (λ h. ap (λ sum. decimal (salted sum)) h),
    ),
  )

abbrev agrees : Bool → Bool → Bool
agrees true b = b
agrees false b = not b

abbrev restored : {S : Type 0} → Bool → Bool → Option Error × S → Option Error × (Bool × S)
restored o n (some e, s) = (some e, (o, s))
restored o n (none, s) = (none, (n, s))

-- `CasRestoreOnErr`, with the flag and what `f` works on as the state.
unfoldable pub cas_restore_on_err :
    {S : Type 0}
    → Bool
    → Bool
    → Error
    → (S → Option Error × S)
    → Bool × S
    → Option Error × (Bool × S)
cas_restore_on_err o n cas_error f (lock, s) =
    if agrees lock o then restored o n (f s) else (some cas_error, (lock, s))

-- What `f` keeps of the state is kept.
module _ {S : Type 0} (P : S → Type 0) (o n : Bool) (cas_error : Error)
    (f : S → Option Error × S) where
  restored_keeps : (r : Option Error × S) → P r.1 → P (restored o n r).1.1
  restored_keeps (some e, s) h = h
  restored_keeps (none, s) h = h

  pub cas_restore_on_err_keeps :
      (lock : Bool) (s : S) → P s → P (f s).1 → P (cas_restore_on_err o n cas_error f (lock, s)).1.1
  unfolding cas_restore_on_err
  cas_restore_on_err_keeps lock s before after = elim (Bool-cases (agrees lock o)) [
    | inl h ↦ rw h (restored_keeps (f s) after)
    | inr h ↦ rw h before
  ]
