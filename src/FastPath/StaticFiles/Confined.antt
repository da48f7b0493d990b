-- ===== src/FastPath/StaticFiles/Confined.antt =====
-- Which files a handler reads.
use hypern.FastPath.StaticFiles.{
  CachedFile, StaticFileHandler, Entry, Served, ok, err, serve, serve_clean, serve_file, remember,
  clean_path, file_path, finish,
}
use hypern.Prelude.Map
use hypern.Prelude.Text.{begins, begins-trim_start_matches, contains}
use hypern.Prelude.{
  ℕ, String, ◌≡◌, refl, sym, ap, ◌∙◌, subst, inl, inr, Bool, false, Option, none, some, ltb,
  if-both, Bool-cases, length, string_eq, nat_eq,
}

-- Whether a path starts at the root of the disk: joined to a directory it leaves the directory.
abbrev pub is_absolute : String → Bool
is_absolute path = begins b'/' path

module _ (join : String → String → String) (etag_of : ℕ → ℕ → String)
    (extension : String → String) where
  -- The disks hold the same at the root joined with each path that is not absolute and has no two
  -- dots in a row.
  abbrev pub AgreesOn : String → (String → Entry) → (String → Entry) → Type 0
  AgreesOn root d e =
      (p : String)
      → is_absolute p ≡ false
      → contains p ".." ≡ false
      → d (join root p) ≡ e (join root p)

  serve-AgreesOn :
      (d e : String → Entry) (path : String) (h : StaticFileHandler)
      → AgreesOn h.root_path d e
      → serve join etag_of extension d path h ≡ serve join etag_of extension e path h
  unfolding serve
  serve-AgreesOn d e path h same = elim (Bool-cases (contains (clean_path path) "..")) [
    | inl k ↦ simp (k)
    | inr k ↦ rw (same (clean_path path) (begins-trim_start_matches b'/' path) k) refl
  ]

  root_path-remember :
      (path : String) (s : Served) (h : StaticFileHandler)
      → (remember join etag_of extension path s h).1.root_path ≡ h.root_path
  root_path-remember path (err x) h = refl
  root_path-remember path (ok f) h =
      if-both (λ (g : StaticFileHandler). g.root_path ≡ h.root_path)
        (ltb (length h.cache) h.max_cache_size) refl refl

  root_path-serve_clean :
      (path : String) (o : Option CachedFile) (s : Served) (h : StaticFileHandler)
      → (serve_clean join etag_of extension path o s h).1.root_path ≡ h.root_path
  root_path-serve_clean path (some f) s h = refl
  root_path-serve_clean path none s h = root_path-remember path s h

  root_path-serve :
      (d : String → Entry) (path : String) (h : StaticFileHandler)
      → (serve join etag_of extension d path h).1.root_path ≡ h.root_path
  unfolding serve
  root_path-serve d path h =
      if-both (λ (r : Served × StaticFileHandler). r.1.root_path ≡ h.root_path)
        (contains (clean_path path) "..") refl
        (root_path-serve_clean (clean_path path) (Map.lookup (clean_path path) h.cache) _ h)

  finish-AgreesOn :
      (d e : String → Entry) (index root : String) (inm : Option String)
      (r : Served × StaticFileHandler)
      → r.1.root_path ≡ root
      → AgreesOn root d e
      → finish join etag_of extension inm r (serve join etag_of extension d index)
        ≡ finish join etag_of extension inm r (serve join etag_of extension e index)
  finish-AgreesOn d e index root inm (ok f, h) k same = refl
  finish-AgreesOn d e index root inm (err x, h) k same =
      rw (serve-AgreesOn d e index h (subst (λ (t : String). AgreesOn t d e) (sym k) same))

  -- Whatever a client asks for, the handler reads nothing but what stands at the root joined with a path
  -- that is not absolute and has no two dots in a row: on disks that agree on those, the answer and the
  -- cache afterwards are the same.
  pub serve_file-AgreesOn :
      (d e : String → Entry) (path : String) (if_none_match : Option String) (h : StaticFileHandler)
      → AgreesOn h.root_path d e
      → serve_file join etag_of extension d path if_none_match h
        ≡ serve_file join etag_of extension e path if_none_match h
  unfolding serve_file
  serve_file-AgreesOn d e path inm h same =
      ap (λ r. finish join etag_of extension inm r (serve join etag_of extension d h.index_file))
        (serve-AgreesOn d e (file_path join etag_of extension path h) h same)
      ∙ finish-AgreesOn d e h.index_file h.root_path inm
          (serve join etag_of extension e (file_path join etag_of extension path h) h)
          (root_path-serve e (file_path join etag_of extension path h) h) same
