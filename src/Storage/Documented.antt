-- ===== src/Storage/Documented.antt =====
-- What the service relies on in MinIO and S3, as laws over what the two stores hold. No law speaks
-- of the contents of the archive after an upload but at the location that was written: an upload
-- may store less than it was given, and the code is written to notice.
use cdn.Common.{take, ℕ, Option, none, some, length, ◌≡◌, ◌≢◌, ◌⊎◌, All}
use cdn.Text.{Text}
use cdn.Storage.{Bytes, ObjectInfo, Reader, ObjectStore, AwsService, ok}

-- What is stored where, by bucket and key.
pub record View (W : Type 0) : Type 0 where
  pub local : W → Text → Text → Option Bytes
  pub archived : W → Text → Text → Option Bytes

module _ {W : Type 0} (v : View W) where
  -- Both stores hold the same in both states.
  pub record Same (a b : W) : Type 0 where
    pub local : (bucket key : Text) → v.local a bucket key ≡ v.local b bucket key
    pub archived : (bucket key : Text) → v.archived a bucket key ≡ v.archived b bucket key

  -- A listed object is held at its size.
  abbrev pub Listed : W → Text → ObjectInfo → Type 0
  Listed w bucket obj =
      obj.failure ≡ none → (c : Bytes) × (v.local w bucket obj.key ≡ some c) × (length c ≡ obj.size)

  pub record StoreLaws (s : ObjectStore W) : Type 0 where
    pub list_buckets_reads : (w : W) → Same (s.list_buckets w).1 w
    pub list_objects_reads : (bucket : Text) (w : W) → Same (s.list_objects bucket w).1 w
    pub list_objects_held :
        (bucket : Text) (w : W) → All (Listed w bucket) (s.list_objects bucket w).0
    pub stat_object_reads : (bucket key : Text) (w : W) → Same (s.stat_object bucket key w).1 w
    pub stat_object_held :
        (bucket key : Text) (w : W) (info : ObjectInfo)
        → (s.stat_object bucket key w).0 ≡ ok info
        → (c : Bytes) × (v.local w bucket key ≡ some c) × (length c ≡ info.size)
    pub open_object_reads : (bucket key : Text) (w : W) → Same (s.open_object bucket key w).1 w
    pub open_object_held :
        (bucket key : Text) (w : W) (r : Reader)
        → (s.open_object bucket key w).0 ≡ ok r
        → v.local w bucket key ≢ none
    pub bucket_exists_reads : (bucket : Text) (w : W) → Same (s.bucket_exists bucket w).1 w
    -- A bucket is made empty.
    pub make_bucket_reads : (bucket : Text) (w : W) → Same (s.make_bucket bucket w).1 w
    pub remove_object_archived :
        (bucket key b k : Text) (w : W)
        → v.archived (s.remove_object bucket key w).1 b k ≡ v.archived w b k
    pub remove_object_other :
        (bucket key b k : Text) (w : W)
        → (b ≢ bucket) ⊎ (k ≢ key)
        → v.local (s.remove_object bucket key w).1 b k ≡ v.local w b k
    -- A removal takes effect or not; it never leaves a part.
    pub remove_object_self :
        (bucket key : Text) (w : W)
        → let w' = (s.remove_object bucket key w).1 in
          (v.local w' bucket key ≡ v.local w bucket key) ⊎ (v.local w' bucket key ≡ none)
    pub remove_object_done :
        (bucket key : Text) (w : W)
        → (s.remove_object bucket key w).0 ≡ none
        → v.local (s.remove_object bucket key w).1 bucket key ≡ none
    pub put_object_archived :
        (bucket key b k : Text) (body : Reader) (size : ℕ) (w : W)
        → v.archived (s.put_object bucket key body size w).1 b k ≡ v.archived w b k
    pub put_object_other :
        (bucket key b k : Text) (body : Reader) (size : ℕ) (w : W)
        → (b ≢ bucket) ⊎ (k ≢ key)
        → v.local (s.put_object bucket key body size w).1 b k ≡ v.local w b k

  pub record S3Laws (a : AwsService W) : Type 0 where
    pub head_reads : (bucket key : Text) (w : W) → Same (a.s3_head_object bucket key w).1 w
    pub head_held :
        (bucket key : Text) (w : W) (n : ℕ)
        → (a.s3_head_object bucket key w).0 ≡ ok (some n)
        → (c : Bytes) × (v.archived w bucket key ≡ some c) × (length c ≡ n)
    pub get_reads : (bucket key : Text) (w : W) → Same (a.s3_get_object bucket key w).1 w
    -- The length that a download reports is that of the object.
    pub get_held :
        (bucket key : Text) (w : W) (body : Reader) (n : ℕ)
        → (a.s3_get_object bucket key w).0 ≡ ok (body, some n)
        → (c : Bytes) × (v.archived w bucket key ≡ some c) × (length c ≡ n)
    pub list_reads : (bucket prefix : Text) (w : W) → Same (a.s3_list_objects bucket prefix w).1 w
    pub put_local :
        (bucket key b k : Text) (body : Reader) (w : W)
        → v.local (a.s3_put_object bucket key body w).1 b k ≡ v.local w b k
    pub put_other :
        (bucket key b k : Text) (body : Reader) (w : W)
        → (b ≢ bucket) ⊎ (k ≢ key)
        → v.archived (a.s3_put_object bucket key body w).1 b k ≡ v.archived w b k

  -- S3 answers the download of one object where the stores hold what they hold in one state: with
  -- all of it, and its length.
  pub record Answers (a : AwsService W) (here : W) (bucket key : Text) : Type 0 where
    pub get :
        (w : W) (c : Bytes)
        → Same w here
        → v.archived w bucket key ≡ some c
        → (a.s3_get_object bucket key w).0
          ≡ ok (record { bytes = c; fault = none }, some (length c))

  -- A successful upload to the local store holds as many bytes as it was told to, and the bytes of a
  -- reader that delivers just these.
  pub record Uploads (s : ObjectStore W) : Type 0 where
    pub put_object_done :
        (bucket key : Text) (body : Reader) (size : ℕ) (w : W)
        → (s.put_object bucket key body size w).0 ≡ none
        → (c : Bytes) × (v.local (s.put_object bucket key body size w).1 bucket key ≡ some c)
          × (length c ≡ size)
          × (body.fault ≡ none → length body.bytes ≡ size → c ≡ body.bytes)

  -- What is carried from one store to the other: a reader delivers a beginning of what the local
  -- store holds, and an upload to S3 leaves what was there or stores a beginning of what its body
  -- delivers. Neither is said to be all of it.
  pub record Transfers (s : ObjectStore W) (a : AwsService W) : Type 0 where
    pub open_object_bytes :
        (bucket key : Text) (w : W) (r : Reader)
        → (s.open_object bucket key w).0 ≡ ok r
        → (c : Bytes) × (n : ℕ) × (v.local w bucket key ≡ some c) × (r.bytes ≡ take n c)
    pub put_self :
        (bucket key : Text) (body : Reader) (w : W)
        → let w' = (a.s3_put_object bucket key body w).1 in
          (v.archived w' bucket key ≡ v.archived w bucket key)
          ⊎ ((n : ℕ) × (v.archived w' bucket key ≡ some (take n body.bytes)))
