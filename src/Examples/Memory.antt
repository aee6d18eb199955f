-- ===== src/Examples/Memory.antt =====
-- Two stores in memory, which obey the laws of Documented. `names` are the keys that a listing
-- looks for, and every object was last modified at `modified`.
use cdn.Common.{
  take_all, sym, ap, ◌∙◌, ℕ, ◌≡◌, refl, ◌≢◌, ◌⊎◌, inr, true, false, ◌&&◌, Option, none, some, List,
  ◌∷◌, arith, if◌then◌else◌, length, All, [], ◌++◌, Bool, ◌==◌, ==_iff,
}
use cdn.Text.{Text, codes, ◌=?◌}
use cdn.Text.Laws.{=?_iff, =?_refl}
use cdn.Storage.{
  Bytes, Error, Result, ok, err, store, sdk, Reader, ObjectInfo, ObjectStore, AwsService,
}
use cdn.Storage.Documented.{Transfers, View, Same, StoreLaws, S3Laws, Listed, Answers, Uploads}

abbrev pub Contents : Type 0
Contents = Text → Text → Option Bytes

pub record Disk : Type 0 where
  pub held : Contents
  pub cold : Contents
  pub names : List Text
  pub modified : ℕ

abbrev pub update : Contents → Text → Text → Option Bytes → Contents
update f b k v = λ c l. if (c =? b) && (l =? k) then v else f c l

abbrev pub missing : Error
missing = store (codes "no such key")

abbrev pub not_there : Error
not_there = sdk (record { not_found = true; no_such_key = false })

abbrev pub info : ℕ → Text → Bytes → ObjectInfo
info t k c = record { key = k; size = length c; last_modified = t; failure = none }

abbrev pub found_info : ℕ → Text → Option Bytes → Result ObjectInfo
found_info t k none = err missing
found_info t k (some c) = ok (info t k c)

abbrev pub found_reader : Option Bytes → Result Reader
found_reader none = err missing
found_reader (some c) = ok (record { bytes = c; fault = none })

abbrev pub found_head : Option Bytes → Result (Option ℕ)
found_head none = err not_there
found_head (some c) = ok (some (length c))

abbrev pub found_body : Option Bytes → Result (Reader × Option ℕ)
found_body none = err not_there
found_body (some c) = ok (record { bytes = c; fault = none }, some (length c))

abbrev pub list_entry : ℕ → Text → Option Bytes → List ObjectInfo → List ObjectInfo
list_entry t k none rest = rest
list_entry t k (some c) rest = info t k c ∷ rest

abbrev pub listing : Contents → Text → ℕ → List Text → List ObjectInfo
listing f b t [] = []
listing f b t (k ∷ ks) = list_entry t k (f b k) (listing f b t ks)

-- The keys below a prefix are looked for among the names behind it.
abbrev pub sized : Text → Option Bytes → List (Text × ℕ) → List (Text × ℕ)
sized k none rest = rest
sized k (some c) rest = (k, length c) ∷ rest

abbrev pub listing_below : Contents → Text → Text → List Text → List (Text × ℕ)
listing_below f b p [] = []
listing_below f b p (k ∷ ks) = sized (p ++ k) (f b (p ++ k)) (listing_below f b p ks)

-- An upload of another size than it says fails.
abbrev pub sized_put : Bool → Text → Text → Reader → Disk → Option Error × Disk
sized_put true b k r w = (none, record w { held = update w.held b k (some r.bytes) })
sized_put false b k r w = (some missing, w)

abbrev pub memory_store : ObjectStore Disk
memory_store = record {
  list_buckets = λ w. (ok (codes "photos" ∷ []), w);
  list_objects = λ b w. (listing w.held b w.modified w.names, w);
  stat_object = λ b k w. (found_info w.modified k (w.held b k), w);
  remove_object = λ b k w. (none, record w { held = update w.held b k none });
  put_object = λ b k r n w. sized_put (length r.bytes == n) b k r w;
  make_bucket = λ b w. (none, w);
  bucket_exists = λ b w. (ok true, w);
  open_object = λ b k w. (found_reader (w.held b k), w);
}

abbrev pub memory_s3 : AwsService Disk
memory_s3 = record {
  s3_put_object = λ b k r w. (none, record w { cold = update w.cold b k (some r.bytes) });
  s3_head_object = λ b k w. (found_head (w.cold b k), w);
  s3_get_object = λ b k w. (found_body (w.cold b k), w);
  s3_head_bucket = λ b w. (none, w);
  s3_list_objects = λ b p w. ((listing_below w.cold b p w.names, none), w);
}

abbrev pub memory_view : View Disk
memory_view = record { local = λ w. w.held; archived = λ w. w.cold }

pub same : (w : Disk) → Same memory_view w w
same w = record { local = λ _ _. refl; archived = λ _ _. refl }

update_other :
    (f : Contents) (b k c l : Text) (x : Option Bytes)
    → (c ≢ b) ⊎ (l ≢ k)
    → update f b k x c l ≡ f c l
update_other f b k c l x h = ground (arith, =?_iff c b, =?_iff l k)

update_self : (f : Contents) (b k : Text) (x : Option Bytes) → update f b k x b k ≡ x
update_self f b k x = rw (=?_refl b, =?_refl k)

Listed-info :
    (w : Disk) (b k : Text) (c : Bytes)
    → w.held b k ≡ some c
    → Listed memory_view w b (info w.modified k c)
Listed-info w b k c e _ = (c, e, refl)

Listed-entry :
    (w : Disk) (b k : Text) (o : Option Bytes) (rest : List ObjectInfo)
    → w.held b k ≡ o
    → All (Listed memory_view w b) rest
    → All (Listed memory_view w b) (list_entry w.modified k o rest)
Listed-entry w b k none rest e h = h
Listed-entry w b k (some c) rest e h = (Listed-info w b k c e, h)

Listed-listing :
    (w : Disk) (b : Text) (ks : List Text)
    → All (Listed memory_view w b) (listing w.held b w.modified ks)
Listed-listing w b [] = tt
Listed-listing w b (k ∷ ks) = Listed-entry w b k (w.held b k) _ refl (Listed-listing w b ks)

put_cold :
    (fits : Bool) (b k : Text) (r : Reader) (w : Disk) (c l : Text)
    → (sized_put fits b k r w).1.cold c l ≡ w.cold c l
put_cold true b k r w c l = refl
put_cold false b k r w c l = refl

put_elsewhere :
    (fits : Bool) (b k : Text) (r : Reader) (w : Disk) (c l : Text)
    → (c ≢ b) ⊎ (l ≢ k)
    → (sized_put fits b k r w).1.held c l ≡ w.held c l
put_elsewhere true b k r w c l h = update_other w.held b k c l (some r.bytes) h
put_elsewhere false b k r w c l h = refl

put_done :
    (fits : Bool) (b k : Text) (r : Reader) (n : ℕ) (w : Disk)
    → (length r.bytes == n) ≡ fits
    → (sized_put fits b k r w).0 ≡ none
    → (c : Bytes) × ((sized_put fits b k r w).1.held b k ≡ some c)
      × (length c ≡ n)
      × (r.fault ≡ none → length r.bytes ≡ n → c ≡ r.bytes)
put_done true b k r n w e h =
    (r.bytes, update_self w.held b k (some r.bytes), (==_iff (length r.bytes) n).0 e, λ _ _. refl)
put_done false b k r n w e h = absurd (cc h)

stated :
    (t : ℕ) (k : Text) (o : Option Bytes) (i : ObjectInfo)
    → found_info t k o ≡ ok i
    → (c : Bytes) × (o ≡ some c) × (length c ≡ i.size)
stated t k none i h = absurd (cc h)
stated t k (some c) i h = (c, refl, ground arith)

opened : (o : Option Bytes) (r : Reader) → found_reader o ≡ ok r → o ≢ none
opened none r h = cc h
opened (some c) r h = cc

headed :
    (o : Option Bytes) (n : ℕ)
    → found_head o ≡ ok (some n)
    → (c : Bytes) × (o ≡ some c) × (length c ≡ n)
headed none n h = absurd (cc h)
headed (some c) n h = (c, refl, ground arith)

read :
    (o : Option Bytes) (body : Reader) (n : ℕ)
    → found_body o ≡ ok (body, some n)
    → (c : Bytes) × (o ≡ some c) × (length c ≡ n)
read none body n h = absurd (cc h)
read (some c) body n h = (c, refl, ground arith)

pub memory_s3-Answers : (here : Disk) (b k : Text) → Answers memory_view memory_s3 here b k
memory_s3-Answers here b k = record { get = λ w c alike h. rw h }

pub memory_store-StoreLaws : StoreLaws memory_view memory_store
memory_store-StoreLaws = record {
  list_buckets_reads = same;
  list_objects_reads = λ _. same;
  list_objects_held = λ b w. Listed-listing w b w.names;
  stat_object_reads = λ _ _. same;
  stat_object_held = λ b k w i h. stated w.modified k (w.held b k) i h;
  open_object_reads = λ _ _. same;
  open_object_held = λ b k w r h. opened (w.held b k) r h;
  bucket_exists_reads = λ _. same;
  make_bucket_reads = λ _. same;
  remove_object_archived = λ _ _ _ _ _. refl;
  remove_object_other = λ b k c l w h. update_other w.held b k c l none h;
  remove_object_self = λ b k w. inr (update_self w.held b k none);
  remove_object_done = λ b k w _. update_self w.held b k none;
  put_object_archived = λ b k c l r n w. put_cold (length r.bytes == n) b k r w c l;
  put_object_other = λ b k c l r n w h. put_elsewhere (length r.bytes == n) b k r w c l h;
}

pub memory_store-Uploads : Uploads memory_view memory_store
memory_store-Uploads = record {
  put_object_done = λ b k r n w h. put_done (length r.bytes == n) b k r n w refl h;
}

pub memory_s3-S3Laws : S3Laws memory_view memory_s3
memory_s3-S3Laws = record {
  head_reads = λ _ _. same;
  head_held = λ b k w n h. headed (w.cold b k) n h;
  get_reads = λ _ _. same;
  get_held = λ b k w body n h. read (w.cold b k) body n h;
  list_reads = λ _ _. same;
  put_local = λ _ _ _ _ _ _. refl;
  put_other = λ b k c l r w h. update_other w.cold b k c l (some r.bytes) h;
}

read_of : (o : Option Bytes) (r : Reader) → found_reader o ≡ ok r → o ≡ some r.bytes
read_of none r h = absurd (cc h)
read_of (some c) r h = cc h

pub memory-Transfers : Transfers memory_view memory_store memory_s3
memory-Transfers = record {
  open_object_bytes =
      λ b k w r h. (r.bytes, length r.bytes, read_of (w.held b k) r h, sym (take_all r.bytes));
  put_self = λ b k r w.
      inr
        (length r.bytes, update_self w.cold b k (some r.bytes) ∙ ap some (sym (take_all r.bytes)));
}
