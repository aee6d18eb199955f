-- ===== src/Upload/Confined.antt =====
-- What an upload can write.
use cdn.Storage.Actions.{if-ends}
use cdn.Common.{◌≡◌, ◌≢◌, sym, ap, ◌∙◌, inl, Bool, Option, none, some, not, ℕ}
use cdn.Text.{Text, codes}
use cdn.Storage.{Bytes, Error, Result, Reader, ObjectStore, AwsService, M}
use cdn.Storage.Documented.{View, Same, StoreLaws, S3Laws}
use cdn.Access.{Principal, resolve_bucket}
use cdn.Archive.{put as put_in, ArchiveConfig, archive, in_scope}
use cdn.Archive.Location.{NoSlash}
use cdn.Tiering.Apart.{Untouched, touching, located_apart}
use cdn.Tiering.Served.{archived_at}
use cdn.Worker.{ℤ}
use cdn.Dimensions.{Floats}
use cdn.Imaging.{Imagick}
use cdn.Image.{archive_object, rewind_and_archive}
use cdn.UploadUrl.{UrlError}
use cdn.UploadChecks.{Settings}
use cdn.UploadPayload.{Form, UrlRequest, Payload, Prepared, rejected, ready}
use cdn.Upload.{put, after_put, upload_image, upload_with_url}
use cdn.Upload.Steps.{IfReady, upload_image-Always, upload_with_url-Always}

module _ {W : Type 0} (v : View W) (s : ObjectStore W) (aws : AwsService W) (a : ArchiveConfig)
    (set : Settings) (local_laws : StoreLaws v s) (s3_laws : S3Laws v aws) where
  module _ (b k bucket : Text) (hb : NoSlash b) (hc : NoSlash bucket) (apart : b ≢ bucket)
      (object : Text) where
    archive_put-Untouched :
        (body : Reader) (w : W) → Untouched v a b k w (put_in aws a bucket object body w).1
    unfolding put_in
    archive_put-Untouched body w =
        let still = (touching v a b k).idle w in
        if-ends (Untouched v a b k w) (not a.enabled) _ _ w (λ _. still)
          λ _.
            if-ends (Untouched v a b k w) (not (in_scope a bucket)) _ _ w (λ _. still)
              (λ _. record {
                local = s3_laws.put_local _ _ b k body w;
                archived =
                    s3_laws.put_other _ _ _ _ body w
                      (located_apart a b k bucket object hb hc apart);
              })

    pub archived-Untouched :
        (body : Reader) (w : W)
        → Untouched v a b k w (archive_object (some (archive aws a)) bucket object body w).1
    unfolding archive_object
    archived-Untouched body w =
        if-ends (Untouched v a b k w) (not (in_scope a bucket)) _ _ w
          (λ _. (touching v a b k).idle w) (λ _. archive_put-Untouched body w)

    rewound-Untouched :
        (seek : Option Error) (body : Reader) (w : W)
        → Untouched v a b k w
            (rewind_and_archive (some (archive aws a)) bucket object seek body w).1
    unfolding rewind_and_archive
    rewound-Untouched (some e) body w =
        if-ends (Untouched v a b k w) (not (in_scope a bucket)) _ _ w
          (λ _. (touching v a b k).idle w) (λ _. (touching v a b k).idle w)
    rewound-Untouched none body w =
        if-ends (Untouched v a b k w) (not (in_scope a bucket)) _ _ w
          (λ _. (touching v a b k).idle w) (λ _. archived-Untouched body w)

    after_put-Untouched :
        (seek : Option Error) (n : ℕ) (p : Payload) (e : Option Error) (w : W)
        → Untouched v a b k w (after_put s (some (archive aws a)) set bucket object seek n p e w).1
    unfolding after_put
    after_put-Untouched seek n p (some e) w = (touching v a b k).idle w
    after_put-Untouched seek n p none w = rewound-Untouched seek p.rewound w

    pub put-Untouched :
        (seek : Option Error) (size_of : Payload → W → ℕ) (p : Payload) (w : W)
        → Untouched v a b k w (put s (some (archive aws a)) set bucket object seek size_of p w).1
    unfolding put
    put-Untouched seek size_of p w =
        let (e, x) = s.put_object bucket object p.reader p.size w in
        (touching v a b k).both
          (record {
            local = local_laws.put_object_other bucket object b k p.reader p.size w (inl apart);
            archived = local_laws.put_object_archived bucket object _ _ p.reader p.size w;
          })
          (after_put-Untouched seek (size_of p x) p e x)

  always_ready : (p : Prepared) → IfReady (λ q. Unit) p
  always_ready (rejected e) = tt
  always_ready (ready p) = tt

  -- UploadImage touches neither the local nor the archived copy of any object outside the bucket
  -- that the principal is given, where neither the bucket of that object nor the one that the
  -- principal is given has a slash in its name.
  pub upload_image_confined :
      (im : Imagick) (f : Floats) (create_file : Bytes → Bool) (random : Text)
      (atoi : Text → Option ℤ) (seek : Option Error) (p : Principal) (form : Form) (w : W)
      (b k : Text)
      → NoSlash b
      → ((bucket : Text)
          → resolve_bucket p (form.value (codes "bucket")) ≡ some bucket
          → NoSlash bucket)
      → resolve_bucket p (form.value (codes "bucket")) ≢ some b
      → let w' =
          (upload_image s
            (some (archive aws a))
            set
            im
            f
            create_file
            random
            atoi
            seek
            p
            form
            w).1 in
        (v.local w' b k ≡ v.local w b k) × (archived_at v a w' b k ≡ archived_at v a w b k)
  upload_image_confined im f create_file random atoi seek p form w b k hb named other =
      let kept =
        upload_image-Always v s (some (archive aws a)) set local_laws
          (λ x o. Untouched v a b k x o.1) (λ e x. (touching v a b k).idle x)
          (λ x. (touching v a b k).idle x)
          (λ x y o h q.
            (touching v a b k).both (record { local = h.local b k; archived = h.archived _ _ }) q)
          (λ q. Unit) p im f create_file random atoi seek form (λ file body e h. always_ready _)
          (λ bucket object q e h x.
            put-Untouched b k bucket hb (named bucket e) (λ same. other (e ∙ ap some (sym same)))
              object seek _ q x)
          w in
      (kept.local, kept.archived)

  -- UploadWithUrl touches neither the local nor the archived copy of any object outside the bucket
  -- that the principal is given, where a fetch changes neither store, and where neither the bucket
  -- of that object nor the one that the principal is given has a slash in its name.
  pub upload_with_url_confined :
      (im : Imagick) (f : Floats) (detect : Bytes → Text) (random : Text)
      (fetch : Text → M W (Result Reader)) (info_size : Payload → W → ℕ) (valid : UrlRequest → Bool)
      (check_url : Text → Option UrlError) (p : Principal) (req : UrlRequest) (w : W) (b k : Text)
      → ((x : W) → Same v (fetch req.url x).1 x)
      → NoSlash b
      → ((bucket : Text) → resolve_bucket p req.bucket ≡ some bucket → NoSlash bucket)
      → resolve_bucket p req.bucket ≢ some b
      → let w' =
          (upload_with_url s
            (some (archive aws a))
            set
            im
            f
            detect
            random
            fetch
            info_size
            valid
            check_url
            p
            (some req)
            w).1 in
        (v.local w' b k ≡ v.local w b k) × (archived_at v a w' b k ≡ archived_at v a w b k)
  upload_with_url_confined im f detect random fetch info_size valid check_url p req w b k reads hb
        named other =
      let kept =
        upload_with_url-Always v s (some (archive aws a)) set local_laws
          (λ x o. Untouched v a b k x o.1) (λ e x. (touching v a b k).idle x)
          (λ x. (touching v a b k).idle x)
          (λ x y o h q.
            (touching v a b k).both (record { local = h.local b k; archived = h.archived _ _ }) q)
          (λ q. Unit) p im f detect random fetch info_size valid check_url req reads
          (λ x body content from h. always_ready _)
          (λ bucket object q e h x.
            put-Untouched b k bucket hb (named bucket e) (λ same. other (e ∙ ap some (sym same)))
              object none _ q x)
          w in
      (kept.local, kept.archived)
