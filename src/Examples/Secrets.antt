-- ===== src/Examples/Secrets.antt =====
-- Libraries for the accounts of backend/app: passwords and hashes in plain text, tokens that are
-- their claims, and identifiers written in unary.
use Prim.Native.Char.{Char}
use Prim.Native.String.{[], ◌∷◌}
use Prim.Native.String.{count as text_length}
use Prim.Native.String.compare
use chore_app.Base.{
  ℕ, zero, suc, ◌*◌, ◌<◌, ◌≡◌, refl, inl, inr, Bool, true, false, Option, none, some, String, arith,
  ltb, same_text, same_text_refl, if◌then◌else◌, Bool-cases, leb, get_or, sym, ap,
}
use chore_app.Security.{Payload, Crypto}

abbrev pub expires_after : ℕ → Option ℕ → Bool
expires_after now none = true
expires_after now (some exp) = ltb now (exp * 1000000)

abbrev pub accept : ℕ → Payload → Option Payload
accept now p = if expires_after now p.exp then some p else none

abbrev pub stroke : Char
stroke = "i"

abbrev pub unary : ℕ → String
unary zero = stroke ∷ []
unary (suc n) = stroke ∷ unary n

abbrev pub shift : Option ℕ → Option ℕ
shift none = some 0
shift (some n) = some (suc n)

abbrev pub count_up : String → Option ℕ
count_up [] = none
count_up (c ∷ s) = shift (count_up s)

pub count_up-unary : (n : ℕ) → count_up (unary n) ≡ some n
count_up-unary zero = refl
count_up-unary (suc n) = rw (count_up-unary n) refl

pub unary_filled : (n : ℕ) → same_text (unary n) "" ≡ false
unary_filled zero = refl
unary_filled (suc n) = rw (same_text, compare.cons-nil stroke (unary n)) refl

pub accept_valid :
    (now : ℕ) (p : Payload) (exp : ℕ)
    → p.exp ≡ some exp
    → now < exp * 1000000
    → accept now p ≡ some p
accept_valid now p exp e early = rw e (ground arith)

pub accept_same :
    (now now' : ℕ) (t p q : Payload) → accept now t ≡ some p → accept now' t ≡ some q → q ≡ p
accept_same now now' t p q e f = elim (Bool-cases (expires_after now t.exp)) [
  | inr late ↦ cc (rw late at e)
  | inl valid ↦ elim (Bool-cases (expires_after now' t.exp)) [
    | inr late ↦ cc (rw late at f)
    | inl valid' ↦ let a = rw valid at e in let b = rw valid' at f in cc
  ]
]

-- The length in characters, which is the length in bytes of a text in ASCII.
abbrev pub fits : String → Bool
fits password = leb (text_length password) 72

pub checks_itself :
    (password salt hashed : String)
    → (if fits password then some password else none) ≡ some hashed
    → (if fits password then some (same_text password hashed) else none) ≡ some true
checks_itself password salt hashed h = elim (Bool-cases (fits password)) [
  | inr long ↦ absurd (cc (rw long at h))
  | inl short ↦
      let same : password ≡ hashed = ap (λ o. get_or password o) (rw short at h) in
      rw (short, sym same) (ap some (same_text_refl password))
]

abbrev pub plain : Crypto
plain = record {
  hashpw = λ password salt. if fits password then some password else none;
  checkpw = λ password hashed. if fits password then some (same_text password hashed) else none;
  checkpw-hashpw = checks_itself;
  sha256 = λ text. text;
  Jwt = Payload;
  encode = λ p. p;
  decode = accept;
  decode-encode = accept_valid;
  decode_same = accept_same;
  str = unary;
  str_filled = unary_filled;
  uuid = count_up;
  uuid-str = count_up-unary;
}
