-- ===== src/Egress/Ending.antt =====
-- A query of the engine ends (Egress/Query.antt).
use baobab_erp.Common.{
  ℕ, zero, suc, ◌+◌, ◌*◌, ◌≤◌, ◌≡◌, refl, arith, String, Bool, true, false, ◌&&◌, ◌||◌, Option,
  none, some, List, [], ◌∷◌, ◌++◌, all, ltb, length, Bool-cases, inl, inr, Result, ok, err, ◌>>=◌,
  any,
}
use baobab_erp.Text.{fullmatch, codes}
use baobab_erp.Json.{Fields, get}
use baobab_erp.Egress.Scopes.{Call}
use baobab_erp.Egress.Guard.{Host, Company}
use baobab_erp.Egress.Client.{ClientError, World, Transport}
use baobab_erp.Egress.Query.{
  Condition, FilterValue, flag, number, negative, words, rendered, condition_text, filter_parts,
  QueryError, identifier, page_size, page_request, out_of_pages, reaches, batch_in, added,
  page_read, read_pages, max_records, max_pages, filtered, build_filter, query,
}

-- an exception that the code raises, and not the end of the fuel
abbrev pub IsRaised : QueryError → Type 0
IsRaised out_of_pages = ⊥
IsRaised _ = Unit

-- the result of a loop that was not cut off: at most 5,000 records, or an exception of the code
abbrev pub Ended : Result QueryError (List Fields) → Type 0
Ended (ok records) = length records ≤ max_records
Ended (err e) = IsRaised e

-- a value, or an exception of the code
abbrev Raises : {A : Type 0} → Result QueryError A → Type 0
Raises (ok a) = Unit
Raises (err e) = IsRaised e

bind-Raises :
    {A B : Type 0} (first : Result QueryError A) (rest : A → Result QueryError B)
    → Raises first
    → ((a : A) → Raises (rest a))
    → Raises (first >>= rest)
bind-Raises (ok a) rest h k = k a
bind-Raises (err e) rest h k = h

length-append : {A : Type 0} (xs ys : List A) → length (xs ++ ys) ≡ length xs + length ys
length-append [] ys = omega arith
length-append (x ∷ xs) ys = omega (arith, length-append xs ys)

false_or : (a b : Bool) → (a || b) ≡ false → a ≡ false
false_or false b h = refl
false_or true b h = absurd (cc h)

module _ {W : Type 0} (ask : ℕ → Call ClientError W Fields) where
  added-Ended :
      (next : List Fields → Call QueryError W (List Fields)) (records : List Fields) (page : Fields)
      (batch : Option (List Fields)) (w : W)
      → ((found : List Fields) (v : W)
          → length found ≤ 5000
          → length records + 100 ≤ length found
          → Ended (next found v).0)
      → Ended (added ask next records page batch w).0
  added-Ended next records page none w later = tt
  added-Ended next records page (some batch) w later =
      let found = records ++ batch in
      let last = ltb (length batch) page_size || reaches (length found) (get "row-count" page) in
      elim (Bool-cases (ltb max_records (length found))) [
        | inl over ↦ rw over tt
        | inr within ↦
            let few : length found ≤ 5000 = ground (arith, within) in
            elim (Bool-cases last) [
              | inl e ↦ rw (within, e) few
              | inr e ↦
                  let full =
                    false_or (ltb (length batch) page_size)
                      (reaches (length found) (get "row-count" page)) e in
                  let more : 100 ≤ length batch = ground (arith, full) in
                  let grown : length records + 100 ≤ length found =
                    omega (arith, more, length-append records batch) in
                  rw (within, e) (later found w few grown)
            ]
      ]

  page_read-Ended :
      (next : List Fields → Call QueryError W (List Fields)) (records : List Fields)
      (r : Result ClientError Fields × W)
      → ((found : List Fields) (v : W)
          → length found ≤ 5000
          → length records + 100 ≤ length found
          → Ended (next found v).0)
      → Ended (page_read ask next records r).0
  page_read-Ended next records (err e, w) later = tt
  page_read-Ended next records (ok page, w) later =
      added-Ended next records page (batch_in (get "records" page)) w later

  read_pages-Ended :
      (n : ℕ) (records : List Fields) (w : W)
      → length records ≤ 5000
      → 5001 ≤ length records + 100 * n
      → Ended (read_pages ask n records w).0
  unfolding read_pages
  read_pages-Ended zero records w few enough = absurd (omega (arith, few, enough))
  read_pages-Ended (suc n) records w few enough =
      page_read-Ended (read_pages ask n) records (ask (length records) w) λ found v few_found grown.
        read_pages-Ended n found v few_found (omega (arith, enough, grown))

module _ (decimal : ℕ → String) where
  rendered-Raises : (v : FilterValue) → Raises (rendered decimal v)
  rendered-Raises (flag true) = tt
  rendered-Raises (flag false) = tt
  rendered-Raises (number n) = tt
  rendered-Raises (negative n) = tt
  rendered-Raises (words s) = elim (Bool-cases (any (λ c. ltb c 32) (codes s))) [
    | inl e ↦ rw e tt
    | inr e ↦ rw e tt
  ]

  condition_text-Raises : (c : Condition) → Raises (condition_text decimal c)
  condition_text-Raises c = elim (Bool-cases (fullmatch identifier c.column)) [
    | inl e ↦
        rw e (bind-Raises (rendered decimal c.value) _ (rendered-Raises c.value) (λ value. tt))
    | inr e ↦ rw e tt
  ]

  filter_parts-Raises : (cs : List Condition) → Raises (filter_parts decimal cs)
  unfolding filter_parts
  filter_parts-Raises [] = tt
  filter_parts-Raises (c ∷ cs) =
      bind-Raises (condition_text decimal c) _ (condition_text-Raises c)
        λ part. bind-Raises (filter_parts decimal cs) _ (filter_parts-Raises cs) (λ parts. tt)

  build_filter-Raises : (cs : List Condition) → Raises (build_filter decimal cs)
  unfolding build_filter
  build_filter-Raises cs =
      bind-Raises (filter_parts decimal cs) _ (filter_parts-Raises cs) (λ parts. tt)

module _ (host : Host) (protected : Bool) (company : Company) {V : Type 0} (transport : Transport V)
    (decimal : ℕ → String) (urlencode : List (String × String) → String) where
  filtered-Ended :
      (filter : Result QueryError String) (table : String) (select : List String) (w : World V)
      → Raises filter
      → Ended (filtered host protected company transport decimal urlencode filter table select w).0
  filtered-Ended (err e) table select w raises = raises
  filtered-Ended (ok filter) table select w raises =
      read_pages-Ended
        (page_request host protected company transport decimal urlencode table filter select)
        max_pages [] w (omega arith) (omega arith)

  -- With fuel for 51 pages a query does not run out of fuel: it returns at most 5,000 records or raises
  -- an exception of the code, whatever the engine answers.
  pub query-Ended :
      (table : String) (conditions : List Condition) (select : List String) (w : World V)
      → Ended (query host protected company transport decimal urlencode table conditions select w).0
  unfolding query
  query-Ended table conditions select w =
      elim (Bool-cases (fullmatch identifier table && all (fullmatch identifier) select)) [
        | inl e ↦ rw e (
            filtered-Ended (build_filter decimal conditions) table select w
              (build_filter-Raises decimal conditions))
        | inr e ↦ rw e tt
      ]
