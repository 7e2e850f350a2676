-- ===== src/Gateway/Accounts/Policy.antt =====
-- Whom the policy of a backend admits.
use portkeeper.Common.{
  String, true, ◌≡◌, ◌≢◌, ◌↔◌, ◌⊎◌, refl, sym, ap, ◌∙◌, List, [], ◌∷◌, ◌++◌, arith, ◌==◌, any,
  string_equal, Bool-cases, inl, inr,
}
use portkeeper.Common.Text.{split}
use portkeeper.Common.Text.Split.{Lacks, join, join-split, split_of_Lacks, split-ne-nil}
use portkeeper.Api.{ServiceAccountReference}
use portkeeper.Gateway.Registry.{Backend, principal_of, allows}
use portkeeper.Gateway.Accounts.{NameRules}
use portkeeper.Gateway.Accounts.Names.{IsAccount, split-principal_of}

two_pieces :
    (xs ys : List String) (x y : String)
    → xs ≢ []
    → ys ≢ []
    → xs ++ ys ≡ x ∷ y ∷ []
    → (xs ≡ x ∷ []) × (ys ≡ y ∷ [])
two_pieces [] ys x y nx ny e = absurd (nx refl)
two_pieces (p ∷ []) ys x y nx ny e = (cc, cc)
two_pieces (p ∷ q ∷ []) ys x y nx ny e = absurd (ny (cc))
two_pieces (p ∷ q ∷ r ∷ more) ys x y nx ny e = cc

whole : (s t : String) → split ":" s ≡ t ∷ [] → s ≡ t
unfolding join
whole s t e = sym (join-split ":" s) ∙ ap (join ":") e

after_two : (a b : String) {xs ys : List String} → (a ∷ b ∷ xs) ≡ (a ∷ b ∷ ys) → xs ≡ ys
after_two a b e = cc

-- Two ServiceAccounts share a user name only if they are the same, if one has names without colons.
pub principal_of_injective :
    (namespace name other_namespace other_name : String)
    → Lacks ":" namespace
    → Lacks ":" name
    → principal_of namespace name ≡ principal_of other_namespace other_name
    → (other_namespace ≡ namespace) × (other_name ≡ name)
principal_of_injective namespace name other_namespace other_name ln lm e =
    let cut =
      sym (split-principal_of other_namespace other_name)
      ∙ ap (split ":") (sym e)
      ∙ split-principal_of namespace name in
    let whole_parts : split ":" namespace ++ split ":" name ≡ namespace ∷ name ∷ [] =
      rw (split_of_Lacks ":" namespace ln, split_of_Lacks ":" name lm) refl in
    let (one, two) =
      two_pieces (split ":" other_namespace) (split ":" other_name) namespace name
        (split-ne-nil ":" other_namespace) (split-ne-nil ":" other_name)
        (after_two "system" "serviceaccount" cut ∙ whole_parts) in
    (whole other_namespace namespace one, whole other_name name two)

-- The policy lists the ServiceAccount.
abbrev pub Lists : String → String → List ServiceAccountReference → Type 0
Lists namespace name [] = ⊥
Lists namespace name (account ∷ accounts) =
    ((account.namespace ≡ namespace) × (account.name ≡ name)) ⊎ Lists namespace name accounts

module _ (namespace name : String) (ln : Lacks ":" namespace) (lm : Lacks ":" name) where
  account_iff :
      (account : ServiceAccountReference)
      → ((principal_of namespace name == principal_of account.namespace account.name) ≡ true)
        ↔ ((account.namespace ≡ namespace) × (account.name ≡ name))
  account_iff account = (
    (λ h.
        principal_of_injective namespace name account.namespace account.name ln lm
          ((string_equal.equal_iff _ _).0 h)),
    λ h. (string_equal.equal_iff _ _).1 (rw (h.0, h.1) refl),
  )

  any-Lists_iff :
      (accounts : List ServiceAccountReference)
      → (any
            (λ account. principal_of namespace name == principal_of account.namespace account.name)
            accounts
          ≡ true)
        ↔ Lists namespace name accounts
  any-Lists_iff [] = ((λ h. cc), λ h. absurd h)
  any-Lists_iff (account ∷ accounts) =
      let one = account_iff account in
      let more = any-Lists_iff accounts in
      elim (Bool-cases
        (principal_of namespace name == principal_of account.namespace account.name)) [
          | inl hit ↦ rw hit ((λ h. inl (one.0 hit)), λ h. refl)
          | inr miss ↦ rw miss (
            (λ h. inr (more.0 h)),
            λ h. elim h [
              | inl same ↦ absurd (ground (arith, one.1 same))
              | inr later ↦ more.1 later
            ],
          )
        ]

-- A verified user is admitted exactly if the policy of the backend lists its namespace and its name:
-- no other account of the policy can stand for it.
pub allows_iff :
    (rules : NameRules) (b : Backend) (username namespace name : String)
    → IsAccount rules username namespace name
    → (allows b username ≡ true) ↔ Lists namespace name b.allowed_service_accounts
unfolding allows
allows_iff rules b username namespace name v =
    rw v.principal
      (any-Lists_iff namespace name v.plain_namespace v.plain_name b.allowed_service_accounts)
