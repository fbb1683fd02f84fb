-- ===== src/Recovery/Frames.antt =====
-- The logs of a commit are replayed as a whole or not at all.
use tonbo.Prelude.{
  ℕ, zero, suc, ◌<◌, ◌-◌, ◌==◌, ◌≡◌, refl, ap, ◌∙◌, true, Option, some, List, [], ◌∷◌, ◌++◌, arith,
  length, take, drop,
}
use tonbo.Prelude.Result.{Result, ok, ◌>>=◌}
use tonbo.Key.{Key}
use tonbo.Timestamp.{Timestamp, Ts, ts_key, new}
use tonbo.OrderedMap.{OrderedMap}
use tonbo.Version.{Version}
use tonbo.Memtable.{
  LogType, full, first_part, middle, last_part, Log, WriteResult, continue, TriggerType,
  MutableMemTable,
}
use tonbo.Transaction.{framed, with_type, one}
use tonbo.Recovery.{
  Recovering, Stop, remove_entry, find_entry, push_entry, recover_as, recover_log, recover_logs,
}

-- the records that a commit writes
abbrev pub logs_of {ℓ κ} :
    {K : Type ℓ} {R : Type κ} → Timestamp → List (LogType × (K × Option R)) → List (Log K R)
logs_of ts [] = []
logs_of ts (e ∷ es) =
    record { key = new e.1.0 ts; value = e.1.1; log_type = some e.0 } ∷ logs_of ts es

not_below_zero : (n : ℕ) → n < 0 → ⊥
not_below_zero n h = omega arith

less_two : (n : ℕ) → suc (suc n) - 2 ≡ n
less_two n = omega arith

same_ts : (ts : ℕ) → (ts == ts) ≡ true
same_ts ts = ground arith

module _ {ℓ} {A : Type ℓ} where
  -- the frames after the first
  abbrev tail_frames : A → List A → List (LogType × A)
  tail_frames a [] = (last_part, a) ∷ []
  tail_frames a (b ∷ l) = (middle, a) ∷ tail_frames b l

  frames_of_tail :
      (b : A) (l : List A)
      → with_type middle (take (length l) (b ∷ l))
          ++ with_type last_part (one (drop (length l) (b ∷ l)))
        ≡ tail_frames b l
  frames_of_tail b [] = refl
  frames_of_tail b (c ∷ l) = ap (λ t. (middle, b) ∷ t) (frames_of_tail c l)

  pub framed-tail : (a b : A) (l : List A) → framed (a ∷ b ∷ l) ≡ (first_part, a) ∷ tail_frames b l
  unfolding framed
  framed-tail a b l =
      ap (λ t. (first_part, a) ∷ t)
        (ap (λ n. with_type middle (take n (b ∷ l)) ++ with_type last_part (one (drop n (b ∷ l))))
            {y = length l} (less_two (length l))
          ∙ frames_of_tail b l)

  framed-one : (a : A) → framed (a ∷ []) ≡ (full, a) ∷ []
  unfolding framed
  framed-one a = refl

  find_first :
      (ts : ℕ) (es : List A) (m : List (ℕ × List A)) → find_entry ts ((ts, es) ∷ m) ≡ some es
  find_first ts es m = rw (same_ts ts) refl

  push_first :
      (ts : ℕ) (a : A) (es : List A) (m : List (ℕ × List A))
      → push_entry ts a ((ts, es) ∷ m) ≡ (ts, es ++ a ∷ []) ∷ m
  push_first ts a es m = rw (same_ts ts) refl

module _ {ℓ κ μ ξ χ} {K : Type ℓ} {R : Type κ} {M : Type μ} {W : Type ξ} {X : Type χ} ⦃k : Key K⦄
    (skip_map : OrderedMap (Ts K) (Option R) M) (write : Log K R → W → Result W X)
    (trigger : TriggerType) (size_of : R → ℕ) where
  abbrev State : Type (ℓ ⊔ κ ⊔ μ ⊔ ξ)
  State = Recovering (MutableMemTable M W) (K × Option R) (Version K)

  abbrev with_open : State → List (ℕ × List (K × Option R)) → State
  with_open s m = record s { transaction_map = m }

  -- what is left of the answer of one record
  abbrev settled : Result (WriteResult × State) (Stop X) → Result State (Stop X)
  settled r = r >>= λ t. ok t.1

  middle_step :
      (ts : Timestamp) (e : K × Option R) (es : List (K × Option R))
      (m : List (ℕ × List (K × Option R))) (s : State)
      → recover_as skip_map write trigger size_of middle ts e (with_open s ((ts, es) ∷ m))
        ≡ ok (continue, with_open s ((ts, es ++ e ∷ []) ∷ m))
  unfolding recover_as
  middle_step ts e es m s = rw (find_first ts es m, push_first ts e es m) refl

  -- The replay went on, and no write was made.
  abbrev pub Unwritten : State → Result State (Stop X) → Type (ℓ ⊔ κ ⊔ μ ⊔ ξ ⊔ χ)
  Unwritten s r = (s' : State) × (r ≡ ok s') × (s'.table ≡ s.table) × (s'.version ≡ s.version)

  tail-Unwritten :
      (n : ℕ) (ts : Timestamp) (e : K × Option R) (l es : List (K × Option R))
      (m : List (ℕ × List (K × Option R))) (s : State)
      → n < length (tail_frames e l)
      → Unwritten s (
          recover_logs skip_map write trigger size_of
            (logs_of ts (take n (tail_frames e l)))
            (with_open s ((ts, es) ∷ m)))
  unfolding recover_logs recover_log
  tail-Unwritten zero ts e l es m s h = (with_open s ((ts, es) ∷ m), refl, refl, refl)
  tail-Unwritten (suc n) ts e [] es m s h = elim (not_below_zero n (omega arith)) [ ]
  tail-Unwritten (suc n) ts e (d ∷ l) es m s h =
      rw (middle_step ts e es m s) (tail-Unwritten n ts d l (es ++ e ∷ []) m s (omega arith))

  many-Unwritten :
      (n : ℕ) (ts : Timestamp) (e d : K × Option R) (l : List (K × Option R)) (s : State)
      → n < length ((first_part, e) ∷ tail_frames d l)
      → Unwritten s (
          recover_logs skip_map write trigger size_of
            (logs_of ts (take n ((first_part, e) ∷ tail_frames d l)))
            s)
  unfolding recover_logs recover_log recover_as
  many-Unwritten zero ts e d l s h = (s, refl, refl, refl)
  many-Unwritten (suc n) ts e d l s h =
      tail-Unwritten n ts d l (e ∷ []) (remove_entry ts s.transaction_map) s (omega arith)

  none-Unwritten : (s : State) → Unwritten s (recover_logs skip_map write trigger size_of [] s)
  unfolding recover_logs
  none-Unwritten s = (s, refl, refl, refl)

  -- The replay of the records that a commit wrote of its writes, where it did not write all of them,
  -- changes nothing in the table: a transaction of which the log has a part is not replayed.
  pub recover_logs-Unwritten :
      (n : ℕ) (ts : Timestamp) (e : K × Option R) (es : List (K × Option R)) (s : State)
      → n < length (framed (e ∷ es))
      → Unwritten s
          (recover_logs skip_map write trigger size_of (logs_of ts (take n (framed (e ∷ es)))) s)
  recover_logs-Unwritten n ts e (d ∷ l) s h =
      let q : n < length ((first_part, e) ∷ tail_frames d l) =
        omega (arith, ap length (framed-tail e d l)) in
      rw (framed-tail e d l) (many-Unwritten n ts e d l s q)
  recover_logs-Unwritten zero ts e [] s h = none-Unwritten s
  recover_logs-Unwritten (suc n) ts e [] s h =
      elim (not_below_zero n (omega (arith, ap length (framed-one e)))) [ ]
