-- ===== src/Core/Account/Address.antt =====
-- soulon-wallet/src/core/wallet.ts: the patterns that addresses are tested by.
use soulon_wallet.Prelude.{
  ℕ, ◌≤◌, ◌==◌, true, false, all, length, is_empty, strip_prefix, trim, String, codes, Text, [],
  ◌∷◌, ◌++◌, Option, none, some, ◌≡◌, ◌↔◌, ◌⊎◌, refl, sym, ap, ◌∙◌, arith, Bool-cases, inl, inr,
}
use mathlib.Core.Option
use soulon_wallet.Prelude.Prefix.{strip_prefix-some, strip_prefix-append}
use soulon_wallet.Prelude.Results.{ok, err, Result-cases}
use soulon_wallet.Core.Errors.{Thrown}
use soulon_wallet.Core.Account.{
  is_syntax, escape_for_regex, literal_from, is_bech32, matches_tail, matches_address,
  validate_prefix, is_address_for_prefix,
}

map-nil : (o : Option Text) → o ≡ Option.map (λ t. [] ++ t) o
map-nil none = refl
map-nil (some t) = refl

map-cons :
    (c : ℕ) (s : Text) (o : Option Text)
    → Option.map (λ t. c ∷ t) (Option.map (λ t. s ++ t) o) ≡ Option.map (λ t. (c ∷ s) ++ t) o
map-cons c s none = refl
map-cons c s (some t) = refl

not_backslash : (c : ℕ) → is_syntax c ≡ false → (c == 92) ≡ false
unfolding is_syntax
not_backslash c h = elim (Bool-cases (c == 92)) [
  | inl e ↦ let same : c ≡ 92 = ground arith in cc (rw same at h)
  | inr n ↦ n
]

-- Escaped text, read as a pattern, stands for exactly the text that was escaped, whatever follows.
pub literal_from-escape_for_regex :
    (s rest : Text)
    → literal_from false (escape_for_regex s ++ rest)
      ≡ Option.map (λ t. s ++ t) (literal_from false rest)
unfolding escape_for_regex literal_from
literal_from-escape_for_regex [] rest = map-nil _
literal_from-escape_for_regex (c ∷ s) rest = elim (Bool-cases (is_syntax c)) [
  | inl special ↦
      rw special
        (ap (Option.map (λ t. c ∷ t)) (literal_from-escape_for_regex s rest) ∙ map-cons c s _)
  | inr plain ↦
      rw (plain, not_backslash c plain, plain)
        (ap (Option.map (λ t. c ∷ t)) (literal_from-escape_for_regex s rest) ∙ map-cons c s _)
]

-- What is behind the prefix: enough characters, all of the bech32 alphabet.
pub record IsAddress (prefix : Text) (least : ℕ) (address : Text) : Type 0 where
  pub tail : Text
  pub shape : address ≡ prefix ++ tail
  pub alphabet : all is_bech32 tail ≡ true
  pub enough : least ≤ length tail

matches_tail-IsAddress :
    (prefix : Text) (least : ℕ) (address : Text) (found : Option Text)
    → strip_prefix prefix address ≡ found
    → matches_tail least found ≡ true
    → IsAddress prefix least address
unfolding matches_tail
matches_tail-IsAddress prefix least address none hit h = cc
matches_tail-IsAddress prefix least address (some tail) hit h = record {
  tail = tail;
  shape = strip_prefix-some prefix address tail hit;
  alphabet = ground arith;
  enough = ground arith;
}

IsAddress-matches_tail :
    (prefix : Text) (least : ℕ) (address : Text)
    → IsAddress prefix least address
    → matches_tail least (strip_prefix prefix address) ≡ true
unfolding matches_tail
IsAddress-matches_tail prefix least address a = rw (a.shape, strip_prefix-append) (ground arith)

-- A pattern with a literal source accepts exactly the addresses that consist of that literal and
-- enough characters of the bech32 alphabet.
pub matches_address-literal :
    (source prefix : Text) (least : ℕ) (address : Text)
    → literal_from false source ≡ some prefix
    → (matches_address source least address ≡ true) ↔ IsAddress prefix least address
unfolding matches_address Option.bind
matches_address-literal source prefix least address e =
    let eq =
      ap (λ o. matches_tail least (Option.bind o (λ literal. strip_prefix literal address))) e in
    (
      λ h. matches_tail-IsAddress prefix least address _ refl (sym eq ∙ h),
      λ a. eq ∙ IsAddress-matches_tail prefix least address a,
    )

-- The literal that the pattern of `isAddressForPrefix` and of the validator pattern starts with.
pub literal_from-source :
    (prefix : Text) (end : String)
    → literal_from false (codes end) ≡ some (codes end)
    → literal_from false (escape_for_regex prefix ++ codes end) ≡ some (prefix ++ codes end)
literal_from-source prefix end e =
    literal_from-escape_for_regex prefix (codes end) ∙ ap (Option.map (λ t. prefix ++ t)) e

literal_from-one : literal_from false (codes "1") ≡ some (codes "1")
unfolding literal_from codes is_syntax
literal_from-one = refl

is_empty-literal : (p tail : Text) → is_empty ((p ++ codes "1") ++ tail) ≡ false
unfolding codes
is_empty-literal [] tail = refl
is_empty-literal (c ∷ p) tail = refl

-- For a valid prefix, exactly the addresses of that form are accepted.
pub is_address_for_prefix-valid :
    (address prefix p : Text)
    → validate_prefix prefix ≡ ok p
    → (is_address_for_prefix address prefix ≡ ok true) ↔ IsAddress (p ++ codes "1") 6 (trim address)
unfolding is_address_for_prefix
is_address_for_prefix-valid address prefix p e = elim (Bool-cases (is_empty (trim address))) [
  | inl blank ↦
      rw (e, blank) ((λ h. cc), (λ a. cc (rw (a.shape, is_empty-literal p a.tail) at blank)))
  | inr there ↦
      let source = literal_from-source p "1" literal_from-one in
      let (to, from) =
        matches_address-literal (escape_for_regex p ++ codes "1") (p ++ codes "1") 6 (trim address)
          source in
      rw (e, there) ((λ h. to (cc h)), (λ a. ap ok (from a)))
]

-- If the prefix is invalid, the test throws the error of its validation. Otherwise, with the valid
-- prefix `p` that the validation makes of it, an address is accepted exactly if, trimmed, it is `p`,
-- a "1" and six or more characters of the bech32 alphabet.
pub is_address_for_prefix-IsAddress :
    (address prefix : Text)
    → ((p : Text) × (validate_prefix prefix ≡ ok p)
        × ((is_address_for_prefix address prefix ≡ ok true)
            ↔ IsAddress (p ++ codes "1") 6 (trim address)))
      ⊎ ((e : Thrown) × (validate_prefix prefix ≡ err e)
          × (is_address_for_prefix address prefix ≡ err e))
unfolding is_address_for_prefix
is_address_for_prefix-IsAddress address prefix = elim (Result-cases (validate_prefix prefix)) [
  | inl (p, e) ↦ inl (p, e, is_address_for_prefix-valid address prefix p e)
  | inr (error, e) ↦ inr (error, e, rw e)
]
