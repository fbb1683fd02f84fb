-- ===== src/Stream/Merge.antt =====
-- src/stream/merge.rs: `MergeStream`, a k-way merge of sorted streams by a binary heap that holds
-- the first entry of each stream. A stream is the list of the items that it has yet to yield, an
-- item is an entry or the error of reading it. `Poll::Pending` changes no state and is left out.
pub mod Heap
pub mod Pull
pub mod Sources
pub mod Emit
pub mod Collect
pub mod Load
pub mod Versions
pub mod Emitted
pub mod Scan
mod Examples
use tonbo.Prelude.{
  ℕ, zero, suc, ◌+◌, ◌-◌, Bool, true, false, ◌||◌, Option, none, some, List, [], ◌∷◌, Ordering,
  compare, ltb, if◌then◌else◌, length,
}
use tonbo.Prelude.Result.{Result, ok, err, ◌>>=◌}
use tonbo.Key.{Key, ◌=?◌, is_lt, reverse, then_by}
use tonbo.Timestamp.{Timestamp, ts_key, cmp}
use tonbo.Stream.{Entry, Order, asc, desc}

-- `order` is that of the stream, one for all entries of a heap, and an argument of `entry_cmp`.
pub record CmpEntry {ℓ κ} (K : Type ℓ) (R : Type κ) : Type (ℓ ⊔ κ) where
  pub offset : ℕ
  pub entry : Entry K R

pub record MergeStream {ℓ κ μ} (K : Type ℓ) (R : Type κ) (X : Type μ) : Type (ℓ ⊔ κ ⊔ μ) where
  pub streams : List (List (Result (Entry K R) X))
  pub peeked : List (CmpEntry K R)
  pub buf : Option (Entry K R)
  pub ts : Timestamp
  pub limit : Option ℕ
  pub order : Option Order

module _ {ℓ κ} {K : Type ℓ} {R : Type κ} ⦃k : Key K⦄ where
  pub natural_cmp : CmpEntry K R → CmpEntry K R → Ordering
  natural_cmp a b = then_by (cmp a.entry.key b.entry.key) (compare a.offset b.offset)

  -- `Ord for CmpEntry`
  pub entry_cmp : Option Order → CmpEntry K R → CmpEntry K R → Ordering
  unfolding natural_cmp
  entry_cmp (some desc) a b = natural_cmp a b
  entry_cmp (some asc) a b = reverse (natural_cmp a b)
  entry_cmp none a b = reverse (natural_cmp a b)

  -- `BinaryHeap::pop`: the greatest element and the others. `peek` is its first part.
  pub pop_max : Option Order → List (CmpEntry K R) → Option (CmpEntry K R × List (CmpEntry K R))
  unfolding entry_cmp
  pop_max order [] = none
  pop_max order (x ∷ xs) = elim (pop_max order xs) [
    | none ↦ some (x, [])
    | some (y, ys) ↦ if is_lt (entry_cmp order x y) then some (y, x ∷ ys) else some (x, xs)
  ]

  -- `if let Some(buf) = this.buf { if buf.key().value == peeked.entry.key().value { continue } }`
  pub same_key : Option (Entry K R) → Entry K R → Bool
  same_key none e = false
  same_key (some b) e = b.key.value =? e.key.value

  -- the two `continue`s of the loop: a version after the snapshot, an older version of the last key
  pub skips : Timestamp → Option (Entry K R) → Entry K R → Bool
  unfolding same_key
  skips ts buf e = ltb ts e.key.ts || same_key buf e

-- `streams[offset].poll_next`; `none` is the panic of an index out of bounds
pub pull {ℓ} : {A : Type ℓ} → ℕ → List (List A) → Option (Option A × List (List A))
pull i [] = none
pull zero ([] ∷ ss) = some (none, [] ∷ ss)
pull zero ((a ∷ s) ∷ ss) = some (some a, s ∷ ss)
pull (suc i) (s ∷ ss) = elim (pull i ss) [ none ↦ none | some (a, rest) ↦ some (a, s ∷ rest) ]

-- How one round of the `while` loop begins.
pub data Round {ℓ κ μ} (K : Type ℓ) (R : Type κ) (X : Type μ) : Type (ℓ ⊔ κ ⊔ μ) where
  drained panicked : Round K R X
  failed : X → List (List (Result (Entry K R) X)) → Round K R X
  popped : Entry K R → List (CmpEntry K R) → List (List (Result (Entry K R) X)) → Round K R X

-- What a poll returns: `Ready`, a panic, or the fuel of the model ran out.
pub data Poll {ℓ μ} (A : Type ℓ) (X : Type μ) : Type (ℓ ⊔ μ) where
  ready : Option (Result A X) → Poll A X
  panic starved : Poll A X

-- the limit is positive where it is decremented
abbrev pub one_less : Option ℕ → Option ℕ
one_less none = none
one_less (some n) = some (n - 1)

abbrev pub spent : Option ℕ → Bool
spent (some zero) = true
spent _ = false

module _ {ℓ κ μ} {K : Type ℓ} {R : Type κ} {X : Type μ} ⦃k : Key K⦄ where
  -- what was pulled takes the place of what is popped
  pub refill :
      CmpEntry K R
      → List (CmpEntry K R)
      → Option (Result (Entry K R) X)
      → List (List (Result (Entry K R) X))
      → Round K R X
  refill top rest none streams = popped top.entry rest streams
  refill top rest (some (err x)) streams = failed x streams
  refill top rest (some (ok e)) streams =
      popped top.entry (record { offset = top.offset; entry = e } ∷ rest) streams

  pub advance :
      Option Order → List (CmpEntry K R) → List (List (Result (Entry K R) X)) → Round K R X
  unfolding pop_max pull refill
  advance order heap streams = elim (pop_max order heap) [
    | none ↦ drained
    | some (top, rest) ↦ elim (pull top.offset streams) [
      | none ↦ panicked
      | some (next, streams') ↦ refill top rest next streams'
    ]
  ]

  abbrev pub ready_buf : Option (Entry K R) → Poll (Entry K R) X
  ready_buf none = ready none
  ready_buf (some e) = ready (some (ok e))

  pub poll_loop : ℕ → MergeStream K R X → Poll (Entry K R) X × MergeStream K R X
  unfolding advance skips
  poll_loop zero s = (starved, s)
  poll_loop (suc fuel) s = elim (advance s.order s.peeked s.streams) [
    | drained ↦ (ready_buf s.buf, record s { buf = none })
    | panicked ↦ (panic, s)
    | failed x streams ↦ (ready (some (err x)), record s { streams = streams })
    | popped e peeked streams ↦
        let s' : MergeStream K R X = record s { streams = streams; peeked = peeked } in
        elim (skips s.ts s.buf e) [
          | true ↦ poll_loop fuel s'
          | false ↦ (ready_buf s.buf, record s' { buf = some e; limit = one_less s.limit })
        ]
  ]

  -- entries that the streams and the heap still hold: each round of the loop takes one
  pub remaining : List (List (Result (Entry K R) X)) → ℕ
  remaining [] = 0
  remaining (s ∷ ss) = length s + remaining ss

  -- `poll_next`
  pub poll_next : MergeStream K R X → Poll (Entry K R) X × MergeStream K R X
  unfolding poll_loop remaining
  poll_next s =
      if spent s.limit
      then (ready none, s)
      else poll_loop (suc (length s.peeked + remaining s.streams)) s

  -- the `for` loop of `from_vec`, from stream `offset` on: what is left of each stream, and the heap
  pub load :
      ℕ
      → List (List (Result (Entry K R) X))
      → Result (List (List (Result (Entry K R) X)) × List (CmpEntry K R)) X
  load offset [] = ok ([], [])
  load offset ([] ∷ ss) = load (suc offset) ss >>= λ r. ok ([] ∷ r.0, r.1)
  load offset ((err x ∷ s) ∷ ss) = err x
  load offset ((ok e ∷ s) ∷ ss) =
      load (suc offset) ss >>= λ r. ok (s ∷ r.0, record { offset = offset; entry = e } ∷ r.1)

  -- The result of the first poll is thrown away: it fills `buf`.
  unfoldable pub from_vec :
      List (List (Result (Entry K R) X)) → Timestamp → Option Order → Result (MergeStream K R X) X
  unfolding load poll_next
  from_vec streams ts order = load 0 streams >>= λ r.
      ok
        (poll_next (record {
          streams = r.0;
          peeked = r.1;
          buf = none;
          ts = ts;
          limit = none;
          order = order;
        })).1

  -- `MergeStream::limit`
  pub limit_to : ℕ → MergeStream K R X → MergeStream K R X
  limit_to n s = record s { limit = some n }

  -- `while let Some(result) = stream.next().await { entries.push(result?) }`, with fuel. A panic
  -- or a lack of fuel is `none`.
  unfoldable pub collect : ℕ → MergeStream K R X → Option (Result (List (Entry K R)) X)
  unfolding poll_next
  collect zero s = none
  collect (suc fuel) s =
      let (polled, s') = poll_next s in
      elim polled [
        | ready none ↦ some (ok [])
        | ready (some (err x)) ↦ some (err x)
        | ready (some (ok e)) ↦ elim (collect fuel s') [
          | none ↦ none
          | some r ↦ some (r >>= λ es. ok (e ∷ es))
        ]
        | panic ↦ none
        | starved ↦ none
      ]
