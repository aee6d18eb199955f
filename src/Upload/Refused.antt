-- ===== src/Upload/Refused.antt =====
-- An upload that is refused leaves nothing behind.
use cdn.Common.{ℕ, ◌≡◌, refl, ◌∙◌, Bool, Option, none, some}
use cdn.Text.{Text}
use cdn.Storage.{Bytes, Error, Result, Reader, ObjectStore, Archive, M}
use cdn.Storage.Documented.{View, Same, StoreLaws}
use cdn.Access.{Principal}
use cdn.Worker.{ℤ}
use cdn.Dimensions.{Floats}
use cdn.Imaging.{Imagick}
use cdn.UploadUrl.{UrlError}
use cdn.UploadChecks.{Settings}
use cdn.UploadPayload.{
  panicked, Form, UrlRequest, UploadReply, UploadError, refused, Payload, Prepared, rejected, ready,
}
use cdn.Upload.{put, after_put, upload_image, upload_with_url}
use cdn.Upload.Steps.{IfReady, upload_image-Always, upload_with_url-Always}

module _ {W : Type 0} (v : View W) (s : ObjectStore W) (a : Option (Archive W)) (set : Settings)
    (local_laws : StoreLaws v s) where
  -- A refusal leaves both stores as they were.
  abbrev Clean : W → UploadReply × W → Type 0
  Clean w o = (e : UploadError) → o.0 ≡ refused e → Same v o.1 w

  Clean-idle : (e : UploadError) (w : W) → Clean w (refused e, w)
  Clean-idle e w = λ _ _. record { local = λ _ _. refl; archived = λ _ _. refl }

  Clean-panic : (w : W) → Clean w (panicked, w)
  Clean-panic w = λ e r. absurd (cc r)

  Clean-Same : (x w : W) (o : UploadReply × W) → Same v x w → Clean x o → Clean w o
  Clean-Same x w o h clean = λ e r. record {
    local = λ b k. (clean e r).local b k ∙ h.local b k;
    archived = λ b k. (clean e r).archived b k ∙ h.archived b k;
  }

  after_put-Clean :
      (bucket object : Text) (seek : Option Error) (n : ℕ) (p : Payload) (e : Option Error)
      (x w : W)
      → (d : UploadError) → (after_put s a set bucket object seek n p e x).0 ≡ refused d
      → Same v (after_put s a set bucket object seek n p e x).1 w
  unfolding after_put
  after_put-Clean bucket object seek n p (some e) x w d h = absurd (cc h)
  after_put-Clean bucket object seek n p none x w d h = absurd (cc h)

  put-Clean :
      (bucket object : Text) (seek : Option Error) (size_of : Payload → W → ℕ) (p : Payload) (w : W)
      → Clean w (put s a set bucket object seek size_of p w)
  unfolding put
  put-Clean bucket object seek size_of p w =
      let (e, x) = s.put_object bucket object p.reader p.size w in
      after_put-Clean bucket object seek (size_of p x) p e x w

  always_ready : (p : Prepared) → IfReady (λ q. Unit) p
  always_ready (rejected e) = tt
  always_ready (ready p) = tt

  -- UploadImage that refuses a request, for whatever reason, leaves every object of both stores as it
  -- was.
  pub upload_image_refused :
      (im : Imagick) (f : Floats) (create_file : Bytes → Bool) (random : Text)
      (atoi : Text → Option ℤ) (seek : Option Error) (p : Principal) (form : Form) (e : UploadError)
      (w : W)
      → (upload_image s a set im f create_file random atoi seek p form w).0 ≡ refused e
      → Same v (upload_image s a set im f create_file random atoi seek p form w).1 w
  upload_image_refused im f create_file random atoi seek p form e w =
      upload_image-Always v s a set local_laws Clean Clean-idle Clean-panic Clean-Same (λ q. Unit) p
        im f create_file random atoi seek form (λ file body x y. always_ready _)
        (λ bucket object q x y. put-Clean bucket object seek _ q) w e

  -- UploadWithUrl that refuses a request, for whatever reason, leaves every object of both stores as
  -- it was, where a fetch changes neither store.
  pub upload_with_url_refused :
      (im : Imagick) (f : Floats) (detect : Bytes → Text) (random : Text)
      (fetch : Text → M W (Result Reader)) (info_size : Payload → W → ℕ) (valid : UrlRequest → Bool)
      (check_url : Text → Option UrlError) (p : Principal) (req : UrlRequest) (e : UploadError)
      (w : W)
      → ((x : W) → Same v (fetch req.url x).1 x)
      → (upload_with_url s a set im f detect random fetch info_size valid check_url p
          (some req)
          w).0
        ≡ refused e
      → Same v
          (upload_with_url s a set im f detect random fetch info_size valid check_url p
            (some req)
            w).1
          w
  upload_with_url_refused im f detect random fetch info_size valid check_url p req e w reads =
      upload_with_url-Always v s a set local_laws Clean Clean-idle Clean-panic Clean-Same
        (λ q. Unit) p im f detect random fetch info_size valid check_url req reads
        (λ x body content from h. always_ready _)
        (λ bucket object q x y. put-Clean bucket object none _ q) w e
