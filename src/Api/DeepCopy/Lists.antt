-- ===== src/Api/DeepCopy/Lists.antt =====
-- A deep copy of a list of servers has their contents, and shares no array with them.
use portkeeper.Common.{
  ℕ, ◌≡◌, refl, sym, ap, subst, ◌∙◌, Option, none, some, List, [], ◌∷◌, All, All-imp,
}
use portkeeper.Api.{Condition, ObjectMeta}
use portkeeper.Api.Memory.{
  Slice, take, take-take, elements, elements-allocate, allocate-elements, IsMade, copy_slice-IsMade,
  IsMade-copy_slice,
}
use portkeeper.Api.DeepCopy.{
  TypeMeta, ServerObject, ServerListObject, Store, Heap, deep_copy_into_spec, deep_copy_into_status,
  deep_copy_into_server, copy_items, deep_copy_into_list,
}
use portkeeper.Api.DeepCopy.Isolation.{
  contents, IsStored, Write, apply_all, IsApart, flipped, copied-contents, kept-contents,
  copied-IsApart,
}
use portkeeper.Api.DeepCopy.Among.{
  all_contents, Among, map-take, All-take, map-ext, apply_all-Among-All, All-swap,
}

module _ (copy_meta : ObjectMeta → ObjectMeta) (copy_condition : Condition → Condition)
    (meta_same : (m : ObjectMeta) → copy_meta m ≡ m)
    (condition_same : (c : Condition) → copy_condition c ≡ c) where
  copied-IsStored :
      (r : ServerObject) (s : Store)
      → (let copied = deep_copy_into_server copy_meta copy_condition r s in
          IsStored copied.1 copied.0)
  unfolding deep_copy_into_server deep_copy_into_spec deep_copy_into_status
  copied-IsStored r s = record {
    tools = copy_slice-IsMade (λ t. t) r.spec.tools s.tools;
    accounts = copy_slice-IsMade (λ a. a) r.spec.allowed_service_accounts s.accounts;
    conditions = copy_slice-IsMade copy_condition r.status.conditions s.conditions;
  }

  kept-IsStored :
      (r q : ServerObject) (s : Store)
      → IsStored s q
      → IsStored (deep_copy_into_server copy_meta copy_condition r s).1 q
  unfolding deep_copy_into_server deep_copy_into_spec deep_copy_into_status
  kept-IsStored r q s stored = record {
    tools = IsMade-copy_slice (λ t. t) r.spec.tools s.tools q.spec.tools stored.tools;
    accounts =
        IsMade-copy_slice (λ a. a) r.spec.allowed_service_accounts s.accounts
          q.spec.allowed_service_accounts stored.accounts;
    conditions =
        IsMade-copy_slice copy_condition r.status.conditions s.conditions q.status.conditions
          stored.conditions;
  }

  copy_items-kept :
      (rs : List ServerObject) (q : ServerObject) (s : Store)
      → IsStored s q
      → contents (copy_items copy_meta copy_condition rs s).1 q ≡ contents s q
  unfolding copy_items
  copy_items-kept [] q s stored = refl
  copy_items-kept (r ∷ rs) q s stored =
      copy_items-kept rs q (deep_copy_into_server copy_meta copy_condition r s).1
        (kept-IsStored r q s stored)
      ∙ kept-contents copy_meta copy_condition meta_same condition_same r q s stored

  copy_items-IsApart :
      (rs : List ServerObject) (q : ServerObject) (s : Store)
      → IsStored s q
      → All (IsApart q) (copy_items copy_meta copy_condition rs s).0
  unfolding copy_items
  copy_items-IsApart [] q s stored = tt
  copy_items-IsApart (r ∷ rs) q s stored = (
    copied-IsApart copy_meta copy_condition meta_same condition_same r q s stored,
    copy_items-IsApart rs q (deep_copy_into_server copy_meta copy_condition r s).1
        (kept-IsStored r q s stored),
  )

  copy_items-contents :
      (rs : List ServerObject) (s : Store)
      → All (IsStored s) rs
      → (let copied = copy_items copy_meta copy_condition rs s in
          all_contents copied.1 copied.0 ≡ all_contents s rs)
  unfolding copy_items
  copy_items-contents [] s stored = refl
  copy_items-contents (r ∷ rs) s stored =
      let first = deep_copy_into_server copy_meta copy_condition r s in
      let head =
        copy_items-kept rs first.0 first.1 (copied-IsStored r s)
        ∙ copied-contents copy_meta copy_condition meta_same condition_same r s in
      let later =
        All-imp (IsStored s) (IsStored first.1) (λ q h. kept-IsStored r q s h) rs stored.1 in
      let tail =
        copy_items-contents rs first.1 later
        ∙ map-ext (contents first.1) (contents s) rs (
            All-imp (IsStored s) (λ q. contents first.1 q ≡ contents s q)
              (λ q h. kept-contents copy_meta copy_condition meta_same condition_same r q s h) rs
              stored.1) in
      rw (head, tail) refl

  all_contents-kept :
      (rs qs : List ServerObject) (s : Store)
      → All (IsStored s) qs
      → all_contents (copy_items copy_meta copy_condition rs s).1 qs ≡ all_contents s qs
  all_contents-kept rs [] s stored = refl
  all_contents-kept rs (q ∷ qs) s stored =
      rw (copy_items-kept rs q s stored.0, all_contents-kept rs qs s stored.1) refl

  -- The servers of the copy of a list.
  abbrev copied_servers : {L : Type 0} → (L → L) → ServerListObject L → Heap → List ServerObject
  copied_servers copy_list_meta r h =
      let copied = deep_copy_into_list copy_list_meta copy_meta copy_condition r h in
      elements copied.1.servers copied.0.items

  -- The first `n` of the copies of servers say what these said, and share no array with any of them.
  copied_items :
      (rs : List ServerObject) (n : ℕ) (s : Store) (ws vs : List Write)
      → All (IsStored s) rs
      → All (Among rs) ws
      → All (Among (take n (copy_items copy_meta copy_condition rs s).0)) vs
      → (let copied = copy_items copy_meta copy_condition rs s in
          (all_contents (apply_all ws copied.1) (take n copied.0) ≡ take n (all_contents s rs))
          × (all_contents (apply_all vs copied.1) rs ≡ all_contents s rs))
  copied_items rs n s ws vs stored of_list of_copy =
      let copied = copy_items copy_meta copy_condition rs s in
      let apart =
        All-imp (IsStored s) (λ r. All (IsApart r) (take n copied.0))
          (λ r h. All-take (IsApart r) n copied.0 (copy_items-IsApart rs r s h)) rs stored in
      (
        apply_all-Among-All rs (take n copied.0) ws copied.1 (All-swap rs (take n copied.0) apart)
              of_list
            ∙ map-take (contents copied.1) n copied.0
            ∙ ap (take n) (copy_items-contents rs s stored),
        apply_all-Among-All (take n copied.0) rs vs copied.1
              (All-imp (λ r. All (IsApart r) (take n copied.0))
                (λ r. All (λ c. IsApart c r) (take n copied.0))
                (λ r h.
                  All-imp (IsApart r) (λ c. IsApart c r) (λ c a. flipped a) (take n copied.0) h)
                rs apart)
              of_copy
            ∙ all_contents-kept rs rs s stored,
      )

  isolated_items :
      {L : Type 0} (copy_list_meta : L → L) (t : TypeMeta) (l : L) (o : Option Slice) (h : Heap)
      (ws vs : List Write)
      → IsMade h.servers o
      → All (IsStored h.store) (elements h.servers o)
      → All (Among (elements h.servers o)) ws
      → All
          (Among
            (copied_servers copy_list_meta (record { type_meta = t; list_meta = l; items = o }) h))
          vs
      → (let copied =
            deep_copy_into_list copy_list_meta copy_meta copy_condition
              (record { type_meta = t; list_meta = l; items = o })
              h in
          (all_contents (apply_all ws copied.1.store) (elements copied.1.servers copied.0.items)
            ≡ all_contents h.store (elements h.servers o))
          × (all_contents (apply_all vs copied.1.store) (elements copied.1.servers o)
              ≡ all_contents h.store (elements h.servers o)))
  unfolding deep_copy_into_list elements
  isolated_items f t l none h ws vs made stored of_list of_copy = (refl, refl)
  isolated_items f t l (some s) h ws vs made stored of_list of_copy =
      let rs = elements h.servers (some s) in
      let copied = copy_items copy_meta copy_condition rs h.store in
      let new = elements-allocate h.servers s.len copied.0 in
      let whole : take s.len rs ≡ rs = take-take s.len (h.servers.array s.address) in
      let both =
        copied_items rs s.len h.store ws vs stored of_list
          (subst (λ qs. All (Among qs) vs) new of_copy) in
      (
        ap (all_contents (apply_all ws copied.1)) new
            ∙ both.0
            ∙ sym (map-take (contents h.store) s.len rs)
            ∙ ap (all_contents h.store) whole,
        ap (all_contents (apply_all vs copied.1))
              (allocate-elements h.servers copied.0 (some s) made)
            ∙ both.1,
      )

  -- If the deep copies of `ObjectMeta` and `Condition` say what their originals do, and the arrays of a list
  -- and of its servers are there: whatever is then assigned through the slices of these servers, the deep
  -- copy says what the list said when it was copied; and whatever is assigned through the servers of the
  -- copy, the list says what it said.
  pub deep_copy_into_list-isolated :
      {L : Type 0} (copy_list_meta : L → L) (r : ServerListObject L) (h : Heap) (ws vs : List Write)
      → IsMade h.servers r.items
      → All (IsStored h.store) (elements h.servers r.items)
      → All (Among (elements h.servers r.items)) ws
      → All (Among (copied_servers copy_list_meta r h)) vs
      → (let copied = deep_copy_into_list copy_list_meta copy_meta copy_condition r h in
          (all_contents (apply_all ws copied.1.store) (elements copied.1.servers copied.0.items)
            ≡ all_contents h.store (elements h.servers r.items))
          × (all_contents (apply_all vs copied.1.store) (elements copied.1.servers r.items)
              ≡ all_contents h.store (elements h.servers r.items)))
  deep_copy_into_list-isolated copy_list_meta r h ws vs made stored of_list of_copy =
      isolated_items copy_list_meta r.type_meta r.list_meta r.items h ws vs made stored of_list
        of_copy
