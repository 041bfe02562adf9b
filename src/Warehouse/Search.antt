-- ===== src/Warehouse/Search.antt =====
-- `capability_index_search`: the loop finds what a filter of the whole index would.
use win_wsl_mcp_bridge.Base.{
  ℕ, ◌+◌, String, Bool, true, false, List, [], ◌∷◌, ◌++◌, map, append-nil, append_assoc, length,
  length-append, take, ◌≡◌, refl, sym, ap, ◌∙◌, inl, inr, ltb, leb, arith, if◌then◌else◌,
  Bool-cases, zero, suc,
}
use win_wsl_mcp_bridge.Json.{Json, int, str, pos}
use win_wsl_mcp_bridge.Warehouse.{
  Item, Hit, hit_of, Texts, good, search_loop, search_in, capped, is_match, parse_capability_index,
  capability_index_search, max_search_results,
}

-- The items that match.
unfoldable pub filter : (Item → Bool) → List Item → List Item
filter matches [] = []
filter matches (i ∷ items) = let rest = filter matches items in if matches i then i ∷ rest else rest

module _ (t : Texts) (matches : Item → Bool) (limit : ℕ) where
  search_loop_lem :
      (found : List Hit) (items : List Item) (left : ℕ)
      → length found + suc left ≡ limit
      → search_loop t matches limit found items
        ≡ found ++ map hit_of (take (suc left) (filter matches items))
  unfolding search_loop filter
  search_loop_lem found [] left e = sym (append-nil found)
  search_loop_lem found (i ∷ items) left e = elim (Bool-cases (matches i)) [
    | inr not_it ↦
        let goes_on : leb limit (length found) ≡ false = ground arith in
        rw (not_it, goes_on) (search_loop_lem found items left e)
    | inl fits ↦ with_match left e fits (λ k f. search_loop_lem (found ++ hit_of i ∷ []) items k f)
  ]
    where
      longer : length (found ++ hit_of i ∷ []) ≡ length found + 1
      longer = length-append found (hit_of i ∷ [])

      with_match :
          (k : ℕ)
          → length found + suc k ≡ limit
          → matches i ≡ true
          → ((n : ℕ)
              → length (found ++ hit_of i ∷ []) + suc n ≡ limit
              → search_loop t matches limit (found ++ hit_of i ∷ []) items
                ≡ (found ++ hit_of i ∷ []) ++ map hit_of (take (suc n) (filter matches items)))
          → search_loop t matches limit found (i ∷ items)
            ≡ found ++ map hit_of (take (suc k) (filter matches (i ∷ items)))
      with_match zero e fits rest =
          let full : leb limit (length (found ++ hit_of i ∷ [])) ≡ true = ground (arith, longer) in
          rw (fits, full) refl
      with_match (suc k) e fits rest =
          let goes_on : leb limit (length (found ++ hit_of i ∷ [])) ≡ false =
            ground (arith, longer) in
          let one_less : length (found ++ hit_of i ∷ []) + suc k ≡ limit = omega (arith, longer) in
          rw (fits, goes_on)
            (rest k one_less
              ∙ append_assoc found (hit_of i ∷ [])
                  (map hit_of (take (suc k) (filter matches items))))

module _ (t : Texts) where
  abbrev pub wanted : List String → List Item → List Item
  wanted [] items = items
  wanted (token ∷ tokens) items = filter (is_match t (token ∷ tokens)) items

  search_in_lem :
      (tokens : List String) (n : ℕ) (items : List Item)
      → search_in t tokens (suc n) items ≡ map hit_of (take (suc n) (wanted tokens items))
  search_in_lem [] n items = refl
  search_in_lem (token ∷ tokens) n items =
      search_loop_lem t (is_match t (token ∷ tokens)) (suc n) [] items n (omega arith)

  capped_lem : (n : ℕ) → (k : ℕ) × (capped t (suc n) ≡ suc k)
  capped_lem n = elim (Bool-cases (ltb (suc n) max_search_results)) [
    | inl e ↦ (n, rw e refl)
    | inr e ↦ (49, rw e refl)
  ]

  -- A search of an accepted index shows the key, identity, summary and groups of the items in whose text every word
  -- of the query occurs, in the order of the index, and of those the first ones up to the limit and to 50: what the loop with its early end
  -- finds is what a filter of the whole index does. A query without words finds every item.
  pub capability_index_search-IsFiltered :
      (index : Json) (items : List Item) (query : String) (n : ℕ)
      → parse_capability_index t index ≡ good items
      → capability_index_search t index (str query) (int (pos (suc n)))
        ≡ good (map hit_of (take (capped t (suc n)) (wanted (t.split (t.casefold query)) items)))
  unfolding capability_index_search
  capability_index_search-IsFiltered index items query n parsed =
      let (k, e) = capped_lem n in
      rw parsed (ap good (rw e (search_in_lem (t.split (t.casefold query)) k items)))
