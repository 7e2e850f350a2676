-- ===== src/Gateway/Accounts/Names.antt =====
-- Which user names are those of ServiceAccounts.
use text.Mathlib.TextEquality.{eq_iff}
use text.Mathlib.TextLemmas.{nil-append, cons-append, append_assoc}
use portkeeper.Common.{
  String, true, ◌≡◌, ◌↔◌, refl, sym, ap, ◌∙◌, List, [], ◌∷◌, ◌++◌, arith, All, string_equal,
}
use portkeeper.Common.Text.{append, split}
use portkeeper.Common.Text.Split.{
  Lacks, join, join-split, split-Lacks, split-append, split_of_Lacks,
}
use portkeeper.Gateway.Accounts.{NameRules, account_parts, valid_service_account}
use portkeeper.Gateway.Registry.{principal_of}

-- The user name of a ServiceAccount, by its two names.
pub record IsAccount (rules : NameRules) (username namespace name : String) : Type 0 where
  pub principal : username ≡ principal_of namespace name
  pub label : rules.is_label namespace ≡ true
  pub subdomain : rules.is_subdomain name ≡ true
  pub plain_namespace : Lacks ":" namespace
  pub plain_name : Lacks ":" name

colon : (s t : String) → append (append s ":") t ≡ append s (String.◌∷◌ ":" t)
colon s t =
    append_assoc s ":" t ∙ ap (append s) (cons-append ":" "" t ∙ ap (String.◌∷◌ ":") (nil-append t))

-- The user name as its four parts between colons.
principal_of-parts :
    (namespace name : String)
    → principal_of namespace name
      ≡ append "system" (
          String.◌∷◌ ":"
            (append "serviceaccount" (String.◌∷◌ ":" (append namespace (String.◌∷◌ ":" name)))))
unfolding principal_of
principal_of-parts namespace name =
    let head : String = append "system" ":" in
    let kind : String = append "serviceaccount" ":" in
    let rest : String = append namespace (String.◌∷◌ ":" name) in
    colon (append (append head kind) namespace) name
    ∙ append_assoc (append head kind) namespace (String.◌∷◌ ":" name)
    ∙ append_assoc head kind rest
    ∙ colon "system" (append kind rest)
    ∙ ap (λ (t : String). append "system" (String.◌∷◌ ":" t)) (colon "serviceaccount" rest)

-- The user name, cut at its colons.
pub split-principal_of :
    (namespace name : String)
    → split ":" (principal_of namespace name)
      ≡ "system" ∷ "serviceaccount" ∷ (split ":" namespace ++ split ":" name)
split-principal_of namespace name =
    let rest : String = append namespace (String.◌∷◌ ":" name) in
    ap (split ":") (principal_of-parts namespace name)
    ∙ split-append ":" "system" (append "serviceaccount" (String.◌∷◌ ":" rest))
    ∙ rw (split-append ":" "serviceaccount" rest, split-append ":" namespace name)
        (unfold split in refl)

join-principal_of :
    (namespace name : String)
    → join ":" ("system" ∷ "serviceaccount" ∷ namespace ∷ name ∷ []) ≡ principal_of namespace name
unfolding join
join-principal_of namespace name = sym (principal_of-parts namespace name)

account_parts-IsAccount :
    (rules : NameRules) (parts : List String)
    → All (Lacks ":") parts
    → account_parts rules parts ≡ true
    → (namespace : String) × (name : String) × (parts
        ≡ "system" ∷ "serviceaccount" ∷ namespace ∷ name ∷ [])
      × IsAccount rules (join ":" parts) namespace name
unfolding account_parts
account_parts-IsAccount rules (a ∷ b ∷ c ∷ d ∷ []) (_, (_, (lc, (ld, _)))) h =
    let same : (a ∷ b ∷ c ∷ d ∷ []) ≡ "system" ∷ "serviceaccount" ∷ c ∷ d ∷ [] =
      ground (arith, eq_iff a "system", eq_iff b "serviceaccount") in
    (
      c,
      d,
      same,
      record {
        principal = ap (join ":") same ∙ join-principal_of c d;
        label = ground arith;
        subdomain = ground arith;
        plain_namespace = lc;
        plain_name = ld;
      },
    )
account_parts-IsAccount rules _ l h = cc

-- A user name passes the check exactly if it is "system:serviceaccount:<namespace>:<name>" for two
-- names without colons that the rules of Kubernetes accept.
pub valid_service_account_iff :
    (rules : NameRules) (username : String)
    → (valid_service_account rules username ≡ true)
      ↔ ((namespace : String) × (name : String) × IsAccount rules username namespace name)
unfolding valid_service_account
valid_service_account_iff rules username = (there, back)
  where
    there :
        account_parts rules (split ":" username) ≡ true
        → (namespace : String) × (name : String) × IsAccount rules username namespace name
    there h =
        let (namespace, name, _, v) =
          account_parts-IsAccount rules (split ":" username) (split-Lacks ":" username) h in
        (namespace, name, rw (join-split ":" username) at v)

    back :
        ((namespace : String) × (name : String) × IsAccount rules username namespace name)
        → account_parts rules (split ":" username) ≡ true
    back (namespace, name, v) =
        rw
          (
            v.principal,
            split-principal_of namespace name,
            split_of_Lacks ":" namespace v.plain_namespace,
            split_of_Lacks ":" name v.plain_name,
          )
          (unfold account_parts in (rw (v.label, v.subdomain) refl))
