-- ===== src/Discovery/Inventory/Complete.antt =====
-- An inventory that is answered is complete, and no larger than was allowed.
use metricops_backend.Common.{
  ℕ, ◌-◌, ◌≤◌, String, ◌≡◌, sym, ap, ◌∙◌, inl, inr, List, [], ◌∷◌, ◌++◌, Option, none, some, ltb,
  arith, length, Bool-cases,
}
use mathlib.Core.List.{append-nil, append_assoc}
use metricops_backend.Effects.{Result, ok, thrown, bind_result-ok, ok-injective}
use metricops_backend.Discovery.{DiscoveredResource}
use metricops_backend.Discovery.Inventory.{
  Item, resource_of_item, push_item, take_items, take_pages, Listing, discover_type, discover_types,
  discover_regions,
}

abbrev some_of : Option DiscoveredResource → List DiscoveredResource
some_of none = []
some_of (some found) = found ∷ []

module _ (resource_type region account_id : String) where
  -- the resources of a page's items, and of all pages that were answered
  unfoldable pub in_items : List Item → List DiscoveredResource
  in_items [] = []
  in_items (item ∷ rest) =
      some_of (resource_of_item resource_type region account_id item) ++ in_items rest

  abbrev in_page : Result (List Item) → List DiscoveredResource
  in_page (ok items) = in_items items
  in_page (thrown t) = []

  unfoldable pub in_pages : List (Result (List Item)) → List DiscoveredResource
  in_pages [] = []
  in_pages (page ∷ rest) = in_page page ++ in_pages rest

push_item-all :
    (limit : ℕ) (o : Option DiscoveredResource) (result result' : List DiscoveredResource)
    → push_item limit o result ≡ ok result'
    → result ++ some_of o ≡ result'
push_item-all limit none result result' h = append-nil result ∙ ok-injective result result' h
push_item-all limit (some found) result result' h =
    elim (Bool-cases (ltb limit (length (result ++ found ∷ [])))) [
      | inl over ↦ absurd (cc (rw over at h))
      | inr within ↦ ok-injective (result ++ found ∷ []) result' (rw within at h)
    ]

module _ (resource_type region account_id : String) (limit : ℕ) where
  take_items-all :
      (items : List Item) (result result' : List DiscoveredResource)
      → take_items resource_type region account_id limit items result ≡ ok result'
      → result ++ in_items resource_type region account_id items ≡ result'
  unfolding take_items in_items
  take_items-all [] result result' h = append-nil result ∙ ok-injective result result' h
  take_items-all (item ∷ rest) result result' h =
      let o = resource_of_item resource_type region account_id item in
      let (mid, pushed, more) =
        bind_result-ok (push_item limit o result)
          (take_items resource_type region account_id limit rest) result' h in
      sym (append_assoc result (some_of o) (in_items resource_type region account_id rest))
      ∙ ap (λ r. r ++ in_items resource_type region account_id rest)
          (push_item-all limit o result mid pushed)
      ∙ take_items-all rest mid result' more

  take_pages-all :
      (pages : List (Result (List Item))) (result result' : List DiscoveredResource)
      → take_pages resource_type region account_id limit pages result ≡ ok result'
      → result ++ in_pages resource_type region account_id pages ≡ result'
  unfolding take_pages in_pages
  take_pages-all [] result result' h = append-nil result ∙ ok-injective result result' h
  take_pages-all (thrown t ∷ rest) result result' h = absurd (cc h)
  take_pages-all (ok items ∷ rest) result result' h =
      let (mid, taken, more) =
        bind_result-ok (take_items resource_type region account_id limit items result)
          (take_pages resource_type region account_id limit rest) result' h in
      sym (
        append_assoc result (in_items resource_type region account_id items)
          (in_pages resource_type region account_id rest))
      ∙ ap (λ r. r ++ in_pages resource_type region account_id rest)
          (take_items-all items result mid taken)
      ∙ take_pages-all rest mid result' more

module _ (listing : Listing) (account_id : String) (max_resources : ℕ) where
  -- the resources of all types of a region, and of all regions
  unfoldable pub in_types : String → List String → List DiscoveredResource
  in_types region [] = []
  in_types region (resource_type ∷ rest) =
      in_pages resource_type region account_id (listing resource_type region)
      ++ in_types region rest

  unfoldable pub in_regions : List String → List String → List DiscoveredResource
  in_regions [] types = []
  in_regions (region ∷ rest) types = in_types region types ++ in_regions rest types

  discover_type-all :
      (resource_type region : String) (remaining : ℕ) (page : List DiscoveredResource)
      → discover_type listing account_id max_resources resource_type region remaining ≡ ok page
      → in_pages resource_type region account_id (listing resource_type region) ≡ page
  unfolding discover_type
  discover_type-all resource_type region remaining page h = elim (Bool-cases (ltb 0 remaining)) [
    | inr spent ↦ absurd (cc (rw (discover_type, spent) at h))
    | inl left ↦
        take_pages-all resource_type region account_id remaining (listing resource_type region) []
          page (rw (discover_type, left) at h)
  ]

  discover_types-all :
      (region : String) (types : List String) (found result : List DiscoveredResource)
      → length found ≤ max_resources
      → discover_types listing account_id max_resources region types found ≡ ok result
      → (found ++ in_types region types ≡ result) × (length result ≤ max_resources)
  unfolding discover_types in_types
  discover_types-all region [] found result k h =
      (append-nil found ∙ ok-injective found result h, rw (sym (ok-injective found result h)) k)
  discover_types-all region (resource_type ∷ rest) found result k h =
      let (page, listed, more) =
        bind_result-ok
          (discover_type listing account_id max_resources resource_type region
            (max_resources - length found))
          _ result h in
      let own = discover_type-all resource_type region (max_resources - length found) page listed in
      elim (Bool-cases (ltb max_resources (length (found ++ page)))) [
        | inl over ↦ absurd (cc (rw over at more))
        | inr within ↦
            let (all_of, few) =
              discover_types-all region rest (found ++ page) result (ground arith)
                (rw within at more) in
            (
              sym (
                    append_assoc found
                      (in_pages resource_type region account_id (listing resource_type region))
                      (in_types region rest))
                  ∙ ap (λ r. (found ++ r) ++ in_types region rest) own
                  ∙ all_of,
              few,
            )
      ]

  -- Started within the limit, an inventory that is answered adds the resources of every page of
  -- every type in every region, in that order and each once, and they are at most as many as the
  -- configuration allows.
  pub discover_regions-all :
      (regions types : List String) (found result : List DiscoveredResource)
      → length found ≤ max_resources
      → discover_regions listing account_id max_resources regions types found ≡ ok result
      → (found ++ in_regions regions types ≡ result) × (length result ≤ max_resources)
  unfolding discover_regions in_regions
  discover_regions-all [] types found result k h =
      (append-nil found ∙ ok-injective found result h, rw (sym (ok-injective found result h)) k)
  discover_regions-all (region ∷ rest) types found result k h =
      let (mid, first, more) =
        bind_result-ok (discover_types listing account_id max_resources region types found) _ result
          h in
      let (own, few) = discover_types-all region types found mid k first in
      let (others, small) = discover_regions-all rest types mid result few more in
      (
        sym (append_assoc found (in_types region types) (in_regions rest types))
            ∙ ap (λ r. r ++ in_regions rest types) own
            ∙ others,
        small,
      )
