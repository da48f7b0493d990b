-- ===== src/FastPath/StaticFiles.antt =====
-- src/fast_path/static_files.rs, `StaticFileHandler`: files of a directory with a cache. The disk is
-- what a path holds at the time of a call; a file's bytes are a text. Parameters: `join` of paths, the
-- etag of a size and a time, the lower-case extension of a path. `serve` and `serve_file` are the
-- calls of one thread between whose locks no other comes; `Bounds` lets threads come between each
-- other.
mod Confined
mod Bounds
mod Tests
use text.Mathlib.Text.{starts_with}
use hypern.Prelude.Map
use hypern.Prelude.Map.{Map}
use hypern.Prelude.Text.{contains, strip_prefix, trim_start_matches}
use hypern.Prelude.{
  ℕ, ◌*◌, String, Bool, true, false, ◌&&◌, Option, none, some, [], ◌∷◌, ltb, if◌then◌else◌, ◌==◌,
  or_default, length, string_eq, nat_eq,
}

pub record CachedFile : Type 0 where
  pub bytes : String
  pub content_type : String
  pub size : ℕ
  pub etag : String

pub data StaticFileError : Type 0 where
  not_found invalid_path io_error too_large : StaticFileError

pub data Served : Type 0 where
  ok : CachedFile → Served
  err : StaticFileError → Served

-- What stands at a path: no file, a file that cannot be opened or mapped, or its bytes, its size and
-- the time of its change.
pub data Entry : Type 0 where
  missing unreadable : Entry
  file : String → ℕ → ℕ → Entry

pub record StaticFileHandler : Type 0 where
  pub root_path : String
  pub cache : Map String CachedFile
  pub max_cache_size : ℕ
  pub max_file_size : ℕ
  pub prefix : String
  pub index_file : String
  pub spa_mode : Bool
  pub cache_max_age : Option ℕ

-- StaticFileHandler::new
abbrev pub new : String → StaticFileHandler
new root_path = record {
  root_path = root_path;
  cache = [];
  max_cache_size = 1000;
  max_file_size = 50 * 1024 * 1024;
  prefix = "/static";
  index_file = "index.html";
  spa_mode = false;
  cache_max_age = none;
}

abbrev pub with_limits : ℕ → ℕ → StaticFileHandler → StaticFileHandler
with_limits max_cache_size max_file_size h = record h {
  max_cache_size = max_cache_size;
  max_file_size = max_file_size;
}

abbrev pub with_prefix : String → StaticFileHandler → StaticFileHandler
with_prefix prefix h = record h { prefix = prefix }

abbrev pub with_spa : Bool → StaticFileHandler → StaticFileHandler
with_spa spa h = record h { spa_mode = spa }

abbrev pub with_cache_max_age : ℕ → StaticFileHandler → StaticFileHandler
with_cache_max_age seconds h = record h { cache_max_age = some seconds }

abbrev pub clear_cache : StaticFileHandler → StaticFileHandler
clear_cache h = record h { cache = [] }

-- `normalize_path` up to its test: without the slashes in front.
abbrev pub clean_path : String → String
clean_path path = trim_start_matches b'/' path

abbrev pub content_types : Map String String
content_types =
    ("html", "text/html; charset=utf-8")
    ∷ ("htm", "text/html; charset=utf-8")
    ∷ ("css", "text/css; charset=utf-8")
    ∷ ("js", "application/javascript; charset=utf-8")
    ∷ ("mjs", "application/javascript; charset=utf-8")
    ∷ ("json", "application/json; charset=utf-8")
    ∷ ("png", "image/png")
    ∷ ("jpg", "image/jpeg")
    ∷ ("jpeg", "image/jpeg")
    ∷ ("gif", "image/gif")
    ∷ ("svg", "image/svg+xml")
    ∷ ("ico", "image/x-icon")
    ∷ ("woff", "font/woff")
    ∷ ("woff2", "font/woff2")
    ∷ ("ttf", "font/ttf")
    ∷ ("eot", "application/vnd.ms-fontobject")
    ∷ ("pdf", "application/pdf")
    ∷ ("txt", "text/plain; charset=utf-8")
    ∷ ("xml", "application/xml; charset=utf-8")
    ∷ ("mp4", "video/mp4")
    ∷ ("webm", "video/webm")
    ∷ ("mp3", "audio/mpeg")
    ∷ ("wav", "audio/wav")
    ∷ ("zip", "application/zip")
    ∷ []

unfoldable pub guess_content_type : String → String
guess_content_type extension =
    or_default "application/octet-stream" (Map.lookup extension content_types)

-- An answer of `serve_file`: body, content type, etag and status, or the exception.
pub data Answer : Type 0 where
  answered : String → String → String → ℕ → Answer
  not_found_error : StaticFileError → Answer
  index_not_found : Answer

module _ (join : String → String → String) (etag_of : ℕ → ℕ → String)
    (extension : String → String) where
  -- `load_file` of the entry at a path.
  unfoldable pub load_file : String → Entry → ℕ → Served
  load_file path missing max_file_size = err not_found
  load_file path unreadable max_file_size = err io_error
  load_file path (file bytes size modified) max_file_size =
      if ltb max_file_size size
      then err too_large
      else ok (record {
        bytes = bytes;
        content_type = guess_content_type (extension path);
        size = size;
        etag = etag_of size modified;
      })

  -- The test under the first lock, and the insertion under the second: other threads can come between.
  abbrev pub has_room : StaticFileHandler → Bool
  has_room h = ltb (length h.cache) h.max_cache_size

  abbrev pub keep_file : String → CachedFile → StaticFileHandler → StaticFileHandler
  keep_file path f h = record h { cache = Map.insert path f h.cache }

  -- What is loaded is kept where the cache has room, where no other thread comes between.
  abbrev pub remember : String → Served → StaticFileHandler → Served × StaticFileHandler
  remember path (err e) h = (err e, h)
  remember path (ok f) h = (ok f, if has_room h then keep_file path f h else h)

  abbrev pub serve_clean :
      String → Option CachedFile → Served → StaticFileHandler → Served × StaticFileHandler
  serve_clean path (some f) loaded h = (ok f, h)
  serve_clean path none loaded h = remember path loaded h

  unfoldable pub serve : (String → Entry) → String → StaticFileHandler → Served × StaticFileHandler
  unfolding load_file
  serve disk path h =
      let clean = clean_path path in
      let full_path = join h.root_path clean in
      let found =
        serve_clean clean (Map.lookup clean h.cache)
          (load_file full_path (disk full_path) h.max_file_size) h in
      if contains clean ".." then (err invalid_path, h) else found

  abbrev pub matches_etag : Option String → String → Bool
  matches_etag none etag = false
  matches_etag (some inm) etag = inm == etag

  abbrev pub answer_of : Option String → CachedFile → Answer
  answer_of if_none_match f =
      if matches_etag if_none_match f.etag
      then answered "" f.content_type f.etag 304
      else answered f.bytes f.content_type f.etag 200

  -- The fallback of a single page application.
  abbrev pub index_answer : Served → Answer
  index_answer (ok f) = answered f.bytes f.content_type f.etag 200
  index_answer (err e) = index_not_found

  abbrev pub is_not_found : StaticFileError → Bool
  is_not_found not_found = true
  is_not_found _ = false

  abbrev pub file_path : String → StaticFileHandler → String
  file_path path h =
      let stripped = clean_path (or_default path (strip_prefix h.prefix path)) in
      if stripped == "" then h.index_file else stripped

  -- What each outcome of `serve` leads to.
  abbrev pub finish :
      Option String
      → Served × StaticFileHandler
      → (StaticFileHandler → Served × StaticFileHandler)
      → Answer × StaticFileHandler
  finish if_none_match (ok f, h) fallback = (answer_of if_none_match f, h)
  finish if_none_match (err e, h) fallback =
      let (served, left) = fallback h in
      if is_not_found e && h.spa_mode then (index_answer served, left) else (not_found_error e, h)

  unfoldable pub serve_file :
      (String → Entry) → String → Option String → StaticFileHandler → Answer × StaticFileHandler
  unfolding serve
  serve_file disk path if_none_match h =
      finish if_none_match (serve disk (file_path path h) h) (serve disk h.index_file)
