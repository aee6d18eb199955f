-- ===== src/Serving/Inert.antt =====
-- Under which declarations contents are served.
use cdn.Common.{
  ℕ, ◌≡◌, refl, Bool, true, false, not, Option, none, some, [], Bool-cases, inl, inr, leb, length,
  take, sym, if◌then◌else◌, ◌≢◌,
}
use cdn.Text.{
  Text, codes, ◌=?◌, member, cut, trim_space, trim_left, trim_right, to_lower, lower_rune, is_space,
}
use cdn.Storage.{Bytes, Error, Reader, ObjectStore, Archive}
use cdn.Storage.Actions.{if-returns}
use cdn.ObjectKey.{has_unsafe_object_key}
use cdn.Worker.{ℤ}
use cdn.Dimensions.{RequestType, Floats}
use cdn.Imaging.{Imagick, imagick_resize}
use cdn.Image.{media_type_of, executable_types, open_object, is_found}
use cdn.Image.Keys.{inert_content_type_inert}
use cdn.UploadChecks.{Settings}
use cdn.UploadPayload.{whole}
use cdn.Serving.{
  Content, ServeReply, placeholder, sent, is_svg, content_type_for, reply_with, serve_resized,
  serve_stream, serve_opened, asked_dimensions, get_image,
}

module _ (detect : Bytes → Text) (object_name : Text) where
  -- The types of HTML, XHTML and XML.
  pub record IsNoMarkup (media_type : Text) : Type 0 where
    pub html : media_type ≢ codes "text/html"
    pub xhtml : media_type ≢ codes "application/xhtml+xml"
    pub text_xml : media_type ≢ codes "text/xml"
    pub xml : media_type ≢ codes "application/xml"

  -- Contents are declared as none of these, and an SVG is sandboxed.
  abbrev Harmless : ServeReply → Type 0
  Harmless r =
      (c : Content)
      → r ≡ sent c
      → IsNoMarkup (media_type_of c.content_type) × (is_svg object_name ≡ true → c.sandboxed ≡ true)

  no_markup : (m : Text) → member m executable_types ≡ false → IsNoMarkup m
  unfolding member ◌=?◌
  no_markup m h = record {
    html = λ e. cc (rw e at h);
    xhtml = λ e. cc (rw e at h);
    text_xml = λ e. cc (rw e at h);
    xml = λ e. cc (rw e at h);
  }

  svg_inert : IsNoMarkup (media_type_of (codes "image/svg+xml"))
  unfolding media_type_of member ◌=?◌ cut trim_space trim_left trim_right to_lower lower_rune
      is_space
  svg_inert = no_markup _ refl

  type_inert :
      (head : Bytes) → IsNoMarkup (media_type_of (content_type_for detect object_name head))
  unfolding content_type_for
  type_inert head = elim (Bool-cases (is_svg object_name)) [
    | inl y ↦ rw y svg_inert
    | inr n ↦ rw n (no_markup _ (inert_content_type_inert (detect head)))
  ]

  reply-Harmless :
      (head : Bytes) (no_store : Bool) (body : Reader)
      → Harmless (reply_with detect object_name head no_store body)
  reply-Harmless head no_store body c h =
      let typed : content_type_for detect object_name head ≡ c.content_type = cc h in
      let boxed : is_svg object_name ≡ c.sandboxed = cc h in
      (rw (sym typed) (type_inert head), λ svg. rw (sym boxed) svg)

  placeholder-Harmless : Harmless placeholder
  placeholder-Harmless c h = absurd (cc h)

  if-Harmless :
      (b : Bool) (r r' : ServeReply) → Harmless r → Harmless r' → Harmless (if b then r else r')
  if-Harmless true r r' h h' = h
  if-Harmless false r r' h h' = h'

  resized-Harmless :
      (im : Imagick) (f : Floats) (slot : Bool) (asked : Bool × ℕ × ℕ) (content : Bytes)
      → Harmless (serve_resized detect im f slot object_name asked content)
  unfolding serve_resized
  resized-Harmless im f slot (resize, width, height) content =
      if-Harmless (content =? []) _ _ placeholder-Harmless (
        if-Harmless (not slot) _ _ (reply-Harmless content true (whole content))
          (reply-Harmless content false (whole (imagick_resize im f content width height))))

  stream-Harmless : (body : Reader) → Harmless (serve_stream detect object_name body)
  unfolding serve_stream
  stream-Harmless body =
      if-Harmless (leb 512 (length body.bytes)) _ _ (reply-Harmless _ false body) (ended body.fault)
    where
      ended :
          (o : Option Error)
          → Harmless (elim o [
            | some e ↦ placeholder
            | none ↦ reply_with detect object_name (take 512 body.bytes) false body
          ])
      ended (some e) = placeholder-Harmless
      ended none = reply-Harmless _ false body

  opened-Harmless :
      (im : Imagick) (f : Floats) (slot : Bool) (asked : Bool × ℕ × ℕ) (o : Option (Reader × ℕ))
      → Harmless (serve_opened detect im f slot object_name asked o)
  opened-Harmless im f slot asked none = placeholder-Harmless
  opened-Harmless im f slot (resize, width, height) (some (body, size)) =
      if-Harmless resize _ _ (resized-Harmless im f slot (resize, width, height) body.bytes)
        (stream-Harmless body)

  -- Whatever is stored and whatever type is sniffed from it, GetImage declares no contents as HTML,
  -- XHTML or XML, and sends an object that is named as an SVG only in a sandbox.
  pub get_image_inert :
      {W : Type 0} (store : ObjectStore W) (a : Option (Archive W)) (im : Imagick) (f : Floats)
      (set : Settings) (value : RequestType → Text → Text) (atoi : Text → Option ℤ) (slot : Bool)
      (bucket : Text) (w : W) (c : Content)
      → (get_image detect store a im f set value atoi slot bucket object_name w).0 ≡ sent c
      → IsNoMarkup (media_type_of c.content_type) × (is_svg object_name ≡ true → c.sandboxed ≡ true)
  unfolding get_image
  get_image_inert store a im f set value atoi slot bucket w c =
      if-returns (λ o. Harmless o.0) (has_unsafe_object_key object_name) _ _ w
        (λ _. placeholder-Harmless)
        (λ _.
          let (found, x) = store.bucket_exists bucket w in
          if-returns (λ o. Harmless o.0) (not (is_found found)) _ _ x (λ _. placeholder-Harmless)
            (λ _.
              opened-Harmless im f slot
                (asked_dimensions detect value atoi set.max_dimension object_name)
                (open_object store a bucket object_name x).0))
        c
