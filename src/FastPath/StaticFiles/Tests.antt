-- ===== src/FastPath/StaticFiles/Tests.antt =====
-- A directory with two files.
use Prim.Native.String
use hypern.Core.Tasks.{pick}
use hypern.FastPath.StaticFiles.{
  StaticFileHandler, Entry, file, missing, new, with_limits, serve, serve_file, load_file,
  guess_content_type, answered, not_found_error, invalid_path, Answer,
}
use hypern.FastPath.StaticFiles.Bounds.{Event, IsWithin, alone, run, run-IsWithin, step}
use hypern.FastPath.StaticFiles.Confined.{AgreesOn, is_absolute, serve_file-AgreesOn}
use hypern.Prelude.Map
use hypern.Prelude.Text.{contains, strip_prefix, trim_start_matches}
use hypern.Prelude.{
  ℕ, String, ◌≡◌, refl, ◌||◌, none, List, [], ◌∷◌, arith, if◌then◌else◌, ◌==◌, length, string_eq,
  nat_eq,
}

abbrev join : String → String → String
join root path = String.◌++◌ root (String.◌++◌ "/" path)

abbrev tag : ℕ → ℕ → String
tag size modified = "t"

abbrev html : String → String
html path = "html"

abbrev disk : String → Entry
disk path = if path == "/www/a.html" then file "A" 1 5 else missing

abbrev handler : StaticFileHandler
handler = with_limits 1 10 (new "/www")

abbrev asked : Answer × StaticFileHandler
asked = serve_file join tag html disk "/static/a.html" none handler

files : Unit {0}
unfolding serve serve_file load_file guess_content_type step run Map.lookup Map.insert contains
    strip_prefix trim_start_matches
files = tt

answer_test :
    (asked.0 ≡ answered "A" "text/html; charset=utf-8" "t" 200)
    × ((serve_file join tag html disk "/static/../etc/passwd" none handler).0
        ≡ not_found_error invalid_path)
unfolding files
answer_test = (refl, refl)

-- The cache goes on answering from the file that it read first.
stale_test :
    (serve_file join tag html (λ path. file "B" 1 6) "/static/a.html" none asked.1).0 ≡ asked.0
unfolding files
stale_test = refl

-- Paths as they are, and a disk with secrets where two dots lead and at absolute paths.
abbrev relative : String → String → String
relative root path = path

abbrev secret : String → Entry
secret path = if is_absolute path || contains path ".." then file "secret" 6 1 else disk path

secret-AgreesOn : AgreesOn relative tag html "/www" disk secret
secret-AgreesOn p no_slash no_dots = ground (arith, no_slash, no_dots)

serve_file-AgreesOn_example :
    serve_file relative tag html disk "/static//etc/passwd" none handler
    ≡ serve_file relative tag html secret "/static//etc/passwd" none handler
serve_file-AgreesOn_example =
    serve_file-AgreesOn relative tag html disk secret "/static//etc/passwd" none handler
      secret-AgreesOn

-- Two threads look for a file each and both find room before one inserts.
abbrev at_once : List Event
at_once =
    Event.looks "a.html"
    ∷ Event.looks "b.html"
    ∷ Event.loads (λ path. file "B" 1 6) 0
    ∷ Event.loads (λ path. file "B" 1 6) 0
    ∷ Event.inserts 0
    ∷ Event.inserts 0
    ∷ []

run-IsWithin_example : IsWithin 2 10 (run join tag html 2 at_once (alone handler)).handler
run-IsWithin_example = run-IsWithin join tag html 2 at_once handler refl

-- They go past the limit of one file; one thread alone keeps to it.
at_once_test :
    (length (run join tag html 2 at_once (alone handler)).handler.cache ≡ 2)
    × (length (run join tag html 1 at_once (alone handler)).handler.cache ≡ 1)
unfolding files pick
at_once_test = (refl, refl)

-- A thread that nobody interrupts does what `serve` does.
serve_test :
    (run join tag html 1
      (Event.looks "/a.html" ∷ Event.loads disk 0 ∷ Event.inserts 0 ∷ [])
      (alone handler)).handler
    ≡ (serve join tag html disk "/a.html" handler).1
unfolding files pick
serve_test = refl
