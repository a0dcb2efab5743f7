-- ===== src/Offline/Shared.antt =====
-- `shareBookDownload` of frontend/src/lib/shared-book-download.ts: requests for the same book share
-- one transfer. Requests are named by numbers. `transfers` lists the keys of the transfers that were
-- started and have not ended; `waiting` the requests that wait for a cancelled transfer to end. The
-- reports of progress are left out.
use z_reader.Prelude.{
  ℕ, suc, ◌+◌, ◌-◌, String, str_eq, eq_iff, ◌≡◌, refl, Bool, true, false, not, ◌||◌, Option, none,
  some, List, [], ◌∷◌, ◌++◌, if◌then◌else◌, filter, ◌==◌, arith, Bool-cases, Option-cases, inl, inr,
}
use z_reader.JsMap
use z_reader.JsMap.{JsMap}
use z_reader.JsMap.Laws.{get-set, get-delete}

pub record SharedDownload : Type 0 where
  pub aborted : Bool
  pub subscribers : List ℕ

pub record Downloads : Type 0 where
  pub downloads : JsMap SharedDownload
  pub transfers : List String
  pub waiting : List (ℕ × String)

unfoldable pub initial : Downloads
initial = record { downloads = []; transfers = []; waiting = [] }

abbrev pub is_empty : List ℕ → Bool
is_empty [] = true
is_empty (x ∷ xs) = false

abbrev pub without : ℕ → List ℕ → List ℕ
without r rs = filter (λ q. not (q == r)) rs

-- `shareBookDownload`, with whether the signal of the request is aborted already.
unfoldable pub share_book_download : String → ℕ → Bool → Downloads → Downloads
share_book_download key r is_aborted s =
    if is_aborted then s else elim (JsMap.get key s.downloads) [
      | none ↦ record s {
        downloads = JsMap.set key (record { aborted = false; subscribers = r ∷ [] }) s.downloads;
        transfers = s.transfers ++ key ∷ [];
      }
      | some e ↦ if e.aborted then record s { waiting = s.waiting ++ (r, key) ∷ [] } else record s {
        downloads =
            JsMap.set key (record { aborted = false; subscribers = e.subscribers ++ r ∷ [] })
              s.downloads;
      }
    ]

-- The `abort` of a request that takes part in a transfer: the last one to leave ends it.
unfoldable pub abort : String → ℕ → Downloads → Downloads
abort key r s = elim (JsMap.get key s.downloads) [
  | none ↦ s
  | some e ↦ record s {
    downloads =
        JsMap.set key
          (record {
            aborted = e.aborted || is_empty (without r e.subscribers);
            subscribers = without r e.subscribers;
          })
          s.downloads;
  }
]

abbrev pub drop_waiting : ℕ → List (ℕ × String) → List (ℕ × String)
drop_waiting r ws = filter (λ (w : ℕ × String). not (w.0 == r)) ws

-- The `abort` of a request that waits.
unfoldable pub abort_waiting : ℕ → Downloads → Downloads
abort_waiting r s = record s { waiting = drop_waiting r s.waiting }

unfoldable pub remove_first : String → List String → List String
remove_first key [] = []
remove_first key (k ∷ ks) = if str_eq k key then ks else k ∷ remove_first key ks

-- A transfer ends, with a file or an error: the `finally` of the shared promise.
unfoldable pub settle : String → Downloads → Downloads
unfolding remove_first
settle key s = record s {
  downloads = JsMap.delete key s.downloads;
  transfers = remove_first key s.transfers;
}

-- The `restart` of a request that waited.
unfoldable pub restart : String → ℕ → Downloads → Downloads
unfolding share_book_download
restart key r s = share_book_download key r false (record s { waiting = drop_waiting r s.waiting })

pub data Event (s : Downloads) : Downloads → Type 0 where
  shares :
      (key : String) (r : ℕ) (is_aborted : Bool) → Event s (share_book_download key r is_aborted s)
  aborts : (key : String) (r : ℕ) → Event s (abort key r s)
  gives_up : (r : ℕ) → Event s (abort_waiting r s)
  settles : (key : String) → Event s (settle key s)
  restarts : (key : String) (r : ℕ) → Event s (restart key r s)

pub data Reach : Downloads → Type 0 where
  start : Reach initial
  next : {s t : Downloads} → Reach s → Event s t → Reach t

abbrev pub count : String → List String → ℕ
count key [] = 0
count key (k ∷ ks) = if str_eq k key then suc (count key ks) else count key ks

abbrev pub IsConsistent : Option SharedDownload → Type 0
IsConsistent none = Unit
IsConsistent (some e) = e.aborted ≡ is_empty e.subscribers

-- For every key: one transfer runs if there is a shared download, and else none; and a shared
-- download is aborted exactly if no request takes part in it.
pub record IsValid (s : Downloads) : Type 0 where
  pub single : (key : String) → count key s.transfers ≡ (if JsMap.has key s.downloads then 1 else 0)
  pub wanted : (key : String) → IsConsistent (JsMap.get key s.downloads)

count-snoc :
    (key k : String) (ks : List String)
    → count key (ks ++ k ∷ []) ≡ count key ks + (if str_eq k key then 1 else 0)
count-snoc key k [] = ground arith
count-snoc key k (x ∷ ks) = ground (arith, count-snoc key k ks)

count-remove_first :
    (key k : String) (ks : List String)
    → count key (remove_first k ks) ≡ (if str_eq k key then count key ks - 1 else count key ks)
unfolding remove_first
count-remove_first key k [] = ground arith
count-remove_first key k (x ∷ ks) =
    ground (arith, eq_iff x k, eq_iff x key, eq_iff k key, count-remove_first key k ks)

is_empty-snoc : (xs : List ℕ) (x : ℕ) → is_empty (xs ++ x ∷ []) ≡ false
is_empty-snoc [] x = refl
is_empty-snoc (y ∷ xs) x = refl

-- A download that is there is replaced by a consistent one.
put-IsValid :
    (key : String) (e e' : SharedDownload) (s : Downloads)
    → IsValid s
    → JsMap.get key s.downloads ≡ some e
    → e'.aborted ≡ is_empty e'.subscribers
    → IsValid (record s { downloads = JsMap.set key e' s.downloads })
put-IsValid key e e' s v found good = record {
  single = λ k. ground (arith, v.single k, get-set key k e' s.downloads, eq_iff key k, found);
  wanted = λ k. ground (arith, v.wanted k, get-set key k e' s.downloads, eq_iff key k, good);
}

share-IsValid :
    (key : String) (r : ℕ) (is_aborted : Bool) (s : Downloads)
    → IsValid s
    → IsValid (share_book_download key r is_aborted s)
unfolding share_book_download
share-IsValid key r true s v = v
share-IsValid key r false s v = elim (Option-cases (JsMap.get key s.downloads)) [
  | inl absent ↦
      let e : SharedDownload = record { aborted = false; subscribers = r ∷ [] } in
      rw (absent, share_book_download)
        (record {
          single = λ k. ground (
            arith,
            v.single k,
            get-set key k e s.downloads,
            eq_iff key k,
            absent,
            count-snoc k key s.transfers,
          );
          wanted = λ k. ground (arith, v.wanted k, get-set key k e s.downloads, eq_iff key k);
        })
  | inr (e, found) ↦ elim (Bool-cases e.aborted) [
    | inl gone ↦
        rw (found, gone, share_book_download) (record { single = v.single; wanted = v.wanted })
    | inr live ↦
        rw (found, live, share_book_download)
          (put-IsValid key e (record { aborted = false; subscribers = e.subscribers ++ r ∷ [] }) s v
            found (ground (arith, is_empty-snoc e.subscribers r)))
  ]
]

without-empty : (r : ℕ) (xs : List ℕ) → is_empty xs ≡ true → is_empty (without r xs) ≡ true
without-empty r [] h = refl
without-empty r (x ∷ xs) h = ground arith

abort-IsValid : (key : String) (r : ℕ) (s : Downloads) → IsValid s → IsValid (abort key r s)
unfolding abort
abort-IsValid key r s v = elim (Option-cases (JsMap.get key s.downloads)) [
  | inl absent ↦ rw (absent, abort) v
  | inr (e, found) ↦
      let good : e.aborted ≡ is_empty e.subscribers = rw found at (v.wanted key) in
      rw (found, abort)
        (put-IsValid key e
          (record {
            aborted = e.aborted || is_empty (without r e.subscribers);
            subscribers = without r e.subscribers;
          })
          s v found (ground (arith, good, without-empty r e.subscribers)))
]

Event-IsValid : {s t : Downloads} → Event s t → IsValid s → IsValid t
unfolding abort_waiting settle restart
Event-IsValid {s = s} (shares key r is_aborted) v = share-IsValid key r is_aborted s v
Event-IsValid {s = s} (aborts key r) v = abort-IsValid key r s v
Event-IsValid (gives_up r) v = record { single = v.single; wanted = v.wanted }
Event-IsValid {s = s} (settles key) v = record {
  single = λ k. ground (
    arith,
    v.single k,
    get-delete key k s.downloads,
    eq_iff key k,
    count-remove_first k key s.transfers,
  );
  wanted = λ k. ground (arith, v.wanted k, get-delete key k s.downloads, eq_iff key k);
}
Event-IsValid {s = s} (restarts key r) v =
    share-IsValid key r false (record s { waiting = drop_waiting r s.waiting })
      (record { single = v.single; wanted = v.wanted })

-- In every state that requests, cancellations, ends of transfers and restarts lead to: a book has
-- one transfer if it has a shared download and else none, and a shared download is aborted exactly
-- if no request takes part in it.
pub one_transfer : {s : Downloads} → Reach s → IsValid s
unfolding initial JsMap.get
one_transfer start = record { single = λ k. refl; wanted = λ k. tt }
one_transfer (next before e) = Event-IsValid e (one_transfer before)
