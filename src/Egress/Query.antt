-- ===== src/Egress/Query.antt =====
-- Queries of the engine, page by page (`build_filter` and `query` of
-- modules/integration/idempiere_client.py). The loop runs on fuel: a page that does not end it brings a
-- hundred records at least, and 5,000 records are the most, so 51 pages are enough. The engine answers
-- with objects.
use Prim.Native.Char.{code}
use baobab_erp.Common.{
  ℕ, zero, suc, String, nat_eq, ◌<>◌, Bool, true, false, not, ◌&&◌, ◌||◌, ◌==◌, Option, none, some,
  List, [], ◌∷◌, ◌++◌, any, all, leb, ltb, length, Result, ok, err, raise_if, ◌>>=◌, ◌>>◌,
  if◌then◌else◌,
}
use baobab_erp.Text.{Regex, cls, seq, star, fullmatch, codes}
use baobab_erp.Json.{Value, Fields, Items, int, minus, bool, obj, arr, end, item, stop, get}
use baobab_erp.Egress.Scopes.{Call}
use baobab_erp.Egress.Guard.{Host, Company}
use baobab_erp.Egress.Client.{ClientError, World, Transport, call}

-- a value of an `Eq` condition
pub data FilterValue : Type 0 where
  flag : Bool → FilterValue
  number negative : ℕ → FilterValue
  words : String → FilterValue

-- `Eq`
pub record Condition : Type 0 where
  pub column : String
  pub value : FilterValue

-- ValueError, IdempiereClientError of the loop, and what a call raises
pub data QueryError : Type 0 where
  not_a_name control_character no_records too_many out_of_pages : QueryError
  failed : ClientError → QueryError

-- `_IDENTIFIER`
abbrev pub identifier : Regex
identifier =
    seq (cls ((b'A', b'Z') ∷ (b'a', b'z') ∷ []))
      (star (cls ((b'A', b'Z') ∷ (b'a', b'z') ∷ (b'0', b'9') ∷ (b'_', b'_') ∷ [])))

-- `value.replace("'", "''")`
unfoldable pub escaped : String → String
escaped String.[] = ""
escaped (String.◌∷◌ c s) =
    let rest = escaped s in
    if code c == 39 then String.◌∷◌ c (String.◌∷◌ c rest) else String.◌∷◌ c rest

abbrev pub page_size : ℕ
page_size = 100

abbrev pub max_records : ℕ
max_records = 5000

-- the pages that are enough
abbrev pub max_pages : ℕ
max_pages = 51

module _ (decimal : ℕ → String) where
  abbrev pub rendered : FilterValue → Result QueryError String
  rendered (flag true) = ok "true"
  rendered (flag false) = ok "false"
  rendered (number n) = ok (decimal n)
  rendered (negative n) = ok ("-" <> decimal n)
  rendered (words s) =
      raise_if (any (λ c. ltb c 32) (codes s)) control_character >> ok ("'" <> (escaped s <> "'"))

  abbrev joined : String → List String → String
  joined between [] = ""
  joined between (x ∷ []) = x
  joined between (x ∷ xs) = x <> (between <> joined between xs)

  abbrev pub condition_text : Condition → Result QueryError String
  condition_text c = do
    raise_if (not (fullmatch identifier c.column)) not_a_name
    value ← rendered c.value
    ok (c.column <> (" eq " <> value))

  unfoldable pub filter_parts : List Condition → Result QueryError (List String)
  unfolding fullmatch escaped
  filter_parts [] = ok []
  filter_parts (c ∷ cs) = do part ← condition_text c; parts ← filter_parts cs; ok (part ∷ parts)

  -- `build_filter`
  unfoldable pub build_filter : List Condition → Result QueryError String
  unfolding filter_parts
  build_filter conditions = do parts ← filter_parts conditions; ok (joined " and " parts)

-- `isinstance(batch, list) and all(isinstance(row, dict) for row in batch)`
unfoldable pub rows_in : Items → Option (List Fields)
rows_in stop = some []
rows_in (item (obj row) rest) = elim (rows_in rest) [ none ↦ none | some rows ↦ some (row ∷ rows) ]
rows_in (item _ rest) = none

abbrev pub batch_in : Value → Option (List Fields)
batch_in (arr items) = rows_in items
batch_in _ = none

-- `isinstance(total, int) and n >= total`, where a Boolean is an int
abbrev pub reaches : ℕ → Value → Bool
reaches n (int total) = leb total n
reaches n (minus total) = true
reaches n (bool true) = leb 1 n
reaches n (bool false) = true
reaches n _ = false

module _ {W : Type 0} (ask : ℕ → Call ClientError W Fields) where
  -- the records so far with those of a page, and what comes next
  abbrev pub added :
      (List Fields → Call QueryError W (List Fields))
      → List Fields
      → Fields
      → Option (List Fields)
      → Call QueryError W (List Fields)
  added next records page none w = (err no_records, w)
  added next records page (some batch) w =
      let found = records ++ batch in
      if ltb max_records (length found)
      then (err too_many, w)
      else if ltb (length batch) page_size || reaches (length found) (get "row-count" page)
      then (ok found, w)
      else next found w

  abbrev pub page_read :
      (List Fields → Call QueryError W (List Fields))
      → List Fields
      → Result ClientError Fields × W
      → Result QueryError (List Fields) × W
  page_read next records (err e, w) = (err (failed e), w)
  page_read next records (ok page, w) = added next records page (batch_in (get "records" page)) w

  -- the loop, for so many pages; `ask n` is the request that skips n records
  unfoldable pub read_pages : ℕ → List Fields → Call QueryError W (List Fields)
  unfolding get rows_in
  read_pages zero records w = (err out_of_pages, w)
  read_pages (suc n) records w =
      let next = read_pages n in page_read next records (ask (length records) w)

module _ (host : Host) (protected : Bool) (company : Company) {V : Type 0} (transport : Transport V)
    (decimal : ℕ → String) (urlencode : List (String × String) → String) where
  abbrev dict_of : Result ClientError Value × World V → Result ClientError Fields × World V
  dict_of (ok (obj page), w) = (ok page, w)
  dict_of (ok _, w) = (ok end, w)
  dict_of (err e, w) = (err e, w)

  abbrev pub page_request : String → String → List String → ℕ → Call ClientError (World V) Fields
  page_request table filter select skip w =
      let parameters =
        ("$filter", filter)
        ∷ ("$select", joined decimal "," select)
        ∷ ("$top", decimal page_size)
        ∷ ("$skip", decimal skip)
        ∷ [] in
      dict_of (
        call host protected company transport "GET"
          ("/models/" <> (table <> ("?" <> urlencode parameters))) end w)

  abbrev pub filtered :
      Result QueryError String → String → List String → Call QueryError (World V) (List Fields)
  filtered (err e) table select w = (err e, w)
  filtered (ok filter) table select w = read_pages (page_request table filter select) max_pages [] w

  -- `query`
  unfoldable pub query :
      String → List Condition → List String → Call QueryError (World V) (List Fields)
  unfolding call build_filter read_pages fullmatch
  query table conditions select w =
      if fullmatch identifier table && all (fullmatch identifier) select
      then filtered (build_filter decimal conditions) table select w
      else (err not_a_name, w)
