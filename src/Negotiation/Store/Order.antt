-- ===== src/Negotiation/Store/Order.antt =====
-- `get_thread` of the negotiation store: the entries of a thread by id, and when that changes
-- nothing.
use Prim.Native.String.{compare}
use text.Mathlib.Text.{is_lt}
use issuekit.Prelude.{
  ℕ, suc, ◌+◌, ◌≤◌, String, ◌≡◌, refl, Bool, true, false, ◌&&◌, ◌||◌, Option, none, some, List, [],
  ◌∷◌, ◌++◌, if◌then◌else◌, ltb, eqb, arith, Result, ◌>>=◌, ok, ap,
}
use issuekit.Prelude.Dict.{get}
use issuekit.Negotiation.Model.{NegotiationEntry}
use issuekit.Negotiation.Store.{MockNegotiationStore, ensure_thread}

-- `(entry.id is None, entry.id or 0, entry.created)` before another such key
abbrev key_lt : Option ℕ → String → Option ℕ → String → Bool
key_lt none c none d = is_lt (compare c d)
key_lt none c (some j) d = false
key_lt (some i) c none d = true
key_lt (some i) c (some j) d = ltb i j || (eqb i j && is_lt (compare c d))

abbrev entry_lt : NegotiationEntry → NegotiationEntry → Bool
entry_lt a b = key_lt a.id a.created b.id b.created

-- `sorted` is stable: an entry goes behind those that are not after it.
insert_entry : NegotiationEntry → List NegotiationEntry → List NegotiationEntry
insert_entry e [] = e ∷ []
insert_entry e (x ∷ t) = if entry_lt x e then x ∷ insert_entry e t else e ∷ x ∷ t

unfoldable pub sort_entries : List NegotiationEntry → List NegotiationEntry
unfolding insert_entry
sort_entries [] = []
sort_entries (e ∷ t) = insert_entry e (sort_entries t)

unfoldable pub get_thread : String → MockNegotiationStore → Result (List NegotiationEntry)
get_thread thread_id s = do entries ← ensure_thread s.now thread_id; ok (sort_entries entries)

-- The ids ascend from `lo` and stay below `hi`.
abbrev pub Ascending : ℕ → List NegotiationEntry → ℕ → Type 0
Ascending lo [] hi = lo ≤ hi
Ascending lo (e ∷ t) hi = (i : ℕ) × (e.id ≡ some i) × (lo ≤ i) × Ascending (suc i) t hi

insert_entry-first :
    (e : NegotiationEntry) (t : List NegotiationEntry) (i hi : ℕ)
    → e.id ≡ some i
    → Ascending (suc i) t hi
    → insert_entry e t ≡ e ∷ t
unfolding insert_entry
insert_entry-first e [] i hi h a = refl
insert_entry-first e (x ∷ t) i hi h (j, hx, le, a) = ground arith

pub sort_entries-Ascending :
    (t : List NegotiationEntry) (lo hi : ℕ) → Ascending lo t hi → sort_entries t ≡ t
unfolding sort_entries
sort_entries-Ascending [] lo hi a = refl
sort_entries-Ascending (e ∷ t) lo hi (i, h, le, a) =
    rw (sort_entries-Ascending t (suc i) hi a) (insert_entry-first e t i hi h a)

pub Ascending-snoc :
    (t : List NegotiationEntry) (lo hi : ℕ) (e : NegotiationEntry)
    → e.id ≡ some hi
    → Ascending lo t hi
    → Ascending lo (t ++ e ∷ []) (hi + 1)
Ascending-snoc [] lo hi e h a = (hi, h, a, omega arith)
Ascending-snoc (x ∷ t) lo hi e h (i, hx, le, a) = (i, hx, le, Ascending-snoc t (suc i) hi e h a)

pub Ascending-mono :
    (t : List NegotiationEntry) (lo hi hi' : ℕ) → hi ≤ hi' → Ascending lo t hi → Ascending lo t hi'
Ascending-mono [] lo hi hi' le a = omega arith
Ascending-mono (x ∷ t) lo hi hi' le (i, hx, h, a) = (i, hx, h, Ascending-mono t (suc i) hi hi' le a)

pub get_thread-Ascending :
    (k : String) (s : MockNegotiationStore) (t : List NegotiationEntry) (hi : ℕ)
    → get k s.threads ≡ some t
    → Ascending 0 t hi
    → get_thread k s ≡ ok t
unfolding get_thread ensure_thread
get_thread-Ascending k s t hi found a =
    rw (found, get_thread, ensure_thread) (ap ok (sort_entries-Ascending t 0 hi a))
