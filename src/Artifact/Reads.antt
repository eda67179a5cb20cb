-- ===== src/Artifact/Reads.antt =====
-- src/hawkbit-client.c: what is known of an artifact that was read.
use rauc_hawkbit_updater.Base.{
  subst, ◌<+>◌, ap, ◌∙◌, String, Bool, false, ◌≡◌, refl, ◌⊎◌, inl, inr, Option, List, [], ◌∷◌, ℤ,
  arith, none, pos, is_zero_ℤ,
}
use rauc_hawkbit_updater.GError.{
  GError, ClientError, multi_chunks, multi_artifacts, Result, ok, err,
}
use rauc_hawkbit_updater.JsonHelper.{Json, json_get_string, json_get_int, json_get_array}
use rauc_hawkbit_updater.World.{Artifact}
use rauc_hawkbit_updater.Artifact.{
  Parsed, parsed, rejected, ◌>>=◌, from, only, read_size, read_url, fallback_url, read_artifact,
}

module _ {A B : Type 0} where
  bind-parsed :
      (p : Parsed A) (f : A → Parsed B) (b : B)
      → (p >>= f) ≡ parsed b
      → (a : A) × (p ≡ parsed a) × (f a ≡ parsed b)
  bind-parsed (parsed a) f b h = (a, refl, h)
  bind-parsed (rejected e) f b h = cc

parsed_inj : {A : Type 0} (a b : A) → parsed a ≡ parsed b → a ≡ b
parsed_inj a b h = cc

from-parsed : {A : Type 0} (r : Result A) (a : A) → from r ≡ parsed a → r ≡ ok a
from-parsed (ok b) a h = ground arith
from-parsed (err e) a h = cc

read_size-parsed :
    (r : Result ℤ) (n : ℤ) → read_size r ≡ parsed n → (r ≡ ok n) × (is_zero_ℤ n ≡ false)
unfolding read_size
read_size-parsed (ok n) m h = ground arith
read_size-parsed (err e) n h = cc

fallback_url-parsed : (r : Result String) (url : String) → fallback_url r ≡ parsed url → r ≡ ok url
unfolding fallback_url
fallback_url-parsed (ok u) url h = ground arith
fallback_url-parsed (err e) url h = cc

read_url-parsed :
    (r http : Result String) (url : String)
    → read_url r http ≡ parsed url
    → (r ≡ ok url) ⊎ (((e : GError) × (r ≡ err e)) × (http ≡ ok url))
unfolding read_url
read_url-parsed (ok u) http url h = inl (ground arith)
read_url-parsed (err e) http url h = inr ((e, refl), fallback_url-parsed http url h)

only-parsed :
    {A : Type 0} (c : ClientError) (m : String) (xs : List A) (a : A)
    → only c m xs ≡ parsed a
    → xs ≡ a ∷ []
unfolding only
only-parsed c m [] a h = cc
only-parsed c m (x ∷ []) a h = ground arith
only-parsed c m (x ∷ y ∷ rest) a h = cc

-- The deployment `root` has one chunk with one artifact, of which `a` is the description; `id` is the
-- deployment's and the last three come from the caller.
pub record IsRead {Node : Type 0} (j : Json Node) (root : Node) (a : Artifact)
    (feedback_url : String) (window : Option String) (do_install : Bool) : Type 0 where
  pub chunk : Node
  pub artifact : Node
  pub one_chunk : json_get_array j root "$.deployment.chunks" ≡ ok (chunk ∷ [])
  pub one_artifact : json_get_array j chunk "$.artifacts" ≡ ok (artifact ∷ [])
  pub version_read : json_get_string j chunk "$.version" ≡ ok a.version
  pub name_read : json_get_string j chunk "$.name" ≡ ok a.name
  pub size_read : json_get_int j artifact "$.size" ≡ ok a.size
  pub has_size : is_zero_ℤ a.size ≡ false
  pub sha1_read : json_get_string j artifact "$.hashes.sha1" ≡ ok a.sha1
  pub url_read :
      (json_get_string j artifact "$._links.download.href" ≡ ok a.download_url)
      ⊎ (((e : GError) × (json_get_string j artifact "$._links.download.href" ≡ err e))
          × (json_get_string j artifact "$._links.download-http.href" ≡ ok a.download_url))
  pub caller :
      (a.feedback_url ≡ feedback_url)
      × (a.maintenance_window ≡ window)
      × (a.do_install ≡ do_install)

-- An artifact that is accepted is the only one of the only chunk of the deployment, is not empty,
-- and every field is what the document says, with the https link where there is one.
pub read_artifact-IsRead :
    {Node : Type 0} (j : Json Node) (root : Node) (id feedback_url : String)
    (window : Option String) (do_install : Bool) (a : Artifact)
    → read_artifact j root id feedback_url window do_install ≡ parsed a
    → IsRead j root a feedback_url window do_install
unfolding read_artifact
read_artifact-IsRead j root id feedback_url window do_install a h0 =
    let (chunks, e1, h1) =
      bind-parsed (from (json_get_array j root "$.deployment.chunks")) _ a h0 in
    let (chunk, e2, h2) =
      bind-parsed
        (only multi_chunks ("Deployment " <+> id <+> " unsupported: cannot handle multiple chunks.")
          chunks)
        _ a h1 in
    let (artifacts, e3, h3) = bind-parsed (from (json_get_array j chunk "$.artifacts")) _ a h2 in
    let (artifact, e4, h4) =
      bind-parsed
        (only multi_artifacts
          ("Deployment " <+> id <+> " unsupported: cannot handle multiple artifacts.") artifacts)
        _ a h3 in
    let (version, e5, h5) = bind-parsed (from (json_get_string j chunk "$.version")) _ a h4 in
    let (name, e6, h6) = bind-parsed (from (json_get_string j chunk "$.name")) _ a h5 in
    let (size, e7, h7) = bind-parsed (read_size (json_get_int j artifact "$.size")) _ a h6 in
    let (sha1, e8, h8) = bind-parsed (from (json_get_string j artifact "$.hashes.sha1")) _ a h7 in
    let (url, e9, h9) =
      bind-parsed
        (read_url (json_get_string j artifact "$._links.download.href")
          (json_get_string j artifact "$._links.download-http.href"))
        _ a h8 in
    subst (λ b. IsRead j root b feedback_url window do_install) (parsed_inj _ a h9)
      (record {
        chunk = chunk;
        artifact = artifact;
        one_chunk =
            from-parsed _ _ e1
            ∙ ap ok (
                only-parsed multi_chunks
                  ("Deployment " <+> id <+> " unsupported: cannot handle multiple chunks.") chunks
                  chunk e2);
        one_artifact =
            from-parsed _ _ e3
            ∙ ap ok (
                only-parsed multi_artifacts
                  ("Deployment " <+> id <+> " unsupported: cannot handle multiple artifacts.")
                  artifacts artifact e4);
        version_read = from-parsed _ _ e5;
        name_read = from-parsed _ _ e6;
        size_read = (read_size-parsed _ size e7).0;
        has_size = (read_size-parsed _ size e7).1;
        sha1_read = from-parsed _ _ e8;
        url_read = read_url-parsed _ _ url e9;
        caller = (refl, refl, refl);
      })

-- A size of 0 that is in the document counts as a failure, but no error is set.
pub read_artifact-zero :
    {Node : Type 0} (j : Json Node) (root chunk artifact : Node)
    (id feedback_url version name : String) (window : Option String) (do_install : Bool)
    → json_get_array j root "$.deployment.chunks" ≡ ok (chunk ∷ [])
    → json_get_array j chunk "$.artifacts" ≡ ok (artifact ∷ [])
    → json_get_string j chunk "$.version" ≡ ok version
    → json_get_string j chunk "$.name" ≡ ok name
    → json_get_int j artifact "$.size" ≡ ok (pos 0)
    → read_artifact j root id feedback_url window do_install ≡ rejected none
unfolding read_artifact only read_size
read_artifact-zero j root chunk artifact id feedback_url version name window do_install h1 h2 h3 h4
      h5 =
    rw (h1, h2, h3, h4, h5) refl
