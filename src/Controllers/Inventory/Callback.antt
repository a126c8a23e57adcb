-- ===== src/Controllers/Inventory/Callback.antt =====
-- What the callback of the inventory controllers makes of an inventory.
use dockyards_flux.Base.{inl, inr, String, some, [], ◌∷◌, ◌≡◌, ◌≢◌, refl, arith, ap, sym, ◌∙◌}
use dockyards_flux.Base.Outcome.{Outcome, done, Outcome-cases, ◌>>=◌}
use dockyards_flux.Base.StringMap
use dockyards_flux.Base.StringMap.{StringMap, Entries}
use dockyards_flux.Api.Objects.{OwnerReference}
use dockyards_flux.Api.Flux.{WorkloadInventory}
use dockyards_flux.Controllers.Inventory.{fill_inventory}

-- The inventory mirrors its owner: it is the only owner, the two labels and the selector are as given,
-- and all else is as before.
pub record Mirrors (owner : OwnerReference) (k v k' v' : String) (selector : Entries)
    (before after : WorkloadInventory) : Type 0 where
  pub owned : after.owner_references ≡ owner ∷ []
  pub first_label : StringMap.lookup k after.labels ≡ some v
  pub second_label : StringMap.lookup k' after.labels ≡ some v'
  pub other_labels :
      (j : String)
      → j ≢ k
      → j ≢ k'
      → StringMap.lookup j after.labels ≡ StringMap.lookup j before.labels
  pub selected : after.selector ≡ record { match_labels = selector; match_expressions = [] }
  pub same_name : after.name ≡ before.name
  pub same_namespace : after.namespace ≡ before.namespace
  pub same_uid : after.uid ≡ before.uid
  pub same_urls : after.urls ≡ before.urls

abbrev with_labels : OwnerReference → Entries → WorkloadInventory → StringMap → WorkloadInventory
with_labels owner selector before labels = record before {
  meta = record before.meta { owner_references = owner ∷ []; labels = labels };
  selector = record { match_labels = selector; match_expressions = [] };
}

module _ {E : Type 0} (owner : OwnerReference) (k v k' v' : String) (selector : Entries) where
  abbrev fill : WorkloadInventory → Outcome E WorkloadInventory
  fill = fill_inventory owner (k, v) (k', v') selector

  -- The callback returns, with the labels set one after the other.
  fill_steps :
      (before : WorkloadInventory)
      → (first second : StringMap) × (StringMap.set {E = E} k v
            (StringMap.make_if_nil before.labels)
          ≡ done first)
        × (StringMap.set {E = E} k' v' first ≡ done second)
        × (fill before ≡ done (with_labels owner selector before second))
  unfolding fill_inventory
  fill_steps before =
      let (entries, made) = StringMap.make_if_nil_total before.labels in
      let (m, first_set) = StringMap.set_total {E = E} k v entries in
      let (m', second_set) = StringMap.set_total {E = E} k' v' m in
      (some m, some m', rw made first_set, second_set, ground (arith, made, first_set, second_set))

  -- Whatever the inventory was, the callback returns, without a panic.
  pub fill_inventory_total :
      (before : WorkloadInventory) → (after : WorkloadInventory) × (fill before ≡ done after)
  fill_inventory_total before =
      let (first, second, _, _, filled) = fill_steps before in
      (with_labels owner selector before second, filled)

  pub fill_inventory-Mirrors :
      k ≢ k'
      → (before after : WorkloadInventory) → fill before ≡ done after
      → Mirrors owner k v k' v' selector before after
  fill_inventory-Mirrors distinct before after e =
      let (first, second, first_set, second_set, filled) = fill_steps before in
      let same : after ≡ with_labels owner selector before second = cc in
      let read = λ (j : String). StringMap.lookup-set k' j v' first second second_set in
      let read_first = λ (j : String).
        StringMap.lookup-set k j v (StringMap.make_if_nil before.labels) first first_set in
      rw same (record {
        owned = refl;
        first_label = ground (arith, read k, read_first k);
        second_label = ground (arith, read k');
        other_labels = λ j other other'.
            ground (arith, read j, read_first j, StringMap.lookup-make_if_nil j before.labels);
        selected = refl;
        same_name = refl;
        same_namespace = refl;
        same_uid = refl;
        same_urls = refl;
      })

with_both :
    {E : Type 0} (owner : OwnerReference) (k v k' v' : String) (selector : Entries)
    (before : WorkloadInventory)
    → fill_inventory {E = E} owner (k, v) (k', v') selector before ≡ (
        StringMap.set_both k v k' v' before.labels >>= λ labels.
        done (with_labels owner selector before labels))
unfolding fill_inventory
with_both {E} owner k v k' v' selector before =
    elim (Outcome-cases (StringMap.set {E = E} k v (StringMap.make_if_nil before.labels))) [
      | inl (m, first) ↦ ground (arith, first)
      | inr (inl (e, wrong)) ↦ ground (arith, wrong)
      | inr (inr wrong) ↦ ground (arith, wrong)
    ]

-- What an inventory was filled with before leaves no trace: filled again, with other values of the same
-- labels, it is what it would be without.
pub fill_inventory_absorbs :
    {E : Type 0} (owner owner' : OwnerReference) (k v w k' v' w' : String)
    (selector selector' : Entries) (before after : WorkloadInventory)
    → k ≢ k'
    → fill_inventory {E = E} owner (k, w) (k', w') selector before ≡ done after
    → fill_inventory {E = E} owner' (k, v) (k', v') selector' after
      ≡ fill_inventory owner' (k, v) (k', v') selector' before
fill_inventory_absorbs {E} owner owner' k v w k' v' w' selector selector' before after ne h =
    elim (Outcome-cases (StringMap.set_both {E = E} k w k' w' before.labels)) [
      | inl (labels, set) ↦
          let same : after ≡ with_labels owner selector before labels =
            ground (arith, set, with_both {E = E} owner k w k' w' selector before) in
          with_both owner' k v k' v' selector' after
          ∙ ap
              (λ x. StringMap.set_both {E = E} k v k' v' x.labels >>= λ l.
                done (with_labels owner' selector' x l))
              same
          ∙ ap
              (λ (o : Outcome E StringMap). o >>= λ l. done (with_labels owner' selector' before l))
              (StringMap.set_both_twice k v w k' v' w' before.labels labels ne set)
          ∙ sym (with_both owner' k v k' v' selector' before)
      | inr (inl (e, wrong)) ↦
          ground (arith, wrong, with_both {E = E} owner k w k' w' selector before)
      | inr (inr wrong) ↦ ground (arith, wrong, with_both {E = E} owner k w k' w' selector before)
    ]
