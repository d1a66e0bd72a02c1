-- ===== src/Practice/WebServer.antt =====
-- basic/src/web_server.cpp: the handlers of the practice lab's web front end. The HTTP library, which
-- calls the handler that fits a request, and its JSON values are a parameter.
pub mod Routes
use webrtc_snippets.Common.{
  ℕ, zero, suc, ◌+◌, ◌-◌, ◌*◌, ◌/◌, ◌%◌, ◌^◌, ◌≤◌, ◌<◌, ◌≡◌, ◌≢◌, ◌↔◌, ◌⊎◌, inl, inr, refl, sym, ap,
  ◌∙◌, subst, arith, tests, Bool, true, false, not, ◌&&◌, ◌||◌, Option, none, some, List, [], ◌∷◌,
  ◌++◌, map, append-nil, append_assoc, ◌==◌, ltb, leb, if◌then◌else◌, is_empty, length, get_elem?,
  drop, take, All, Bool-cases, Option-cases, guard, ◌>>=◌, ◌>>◌, >>=-eq-some, along_some, along_if,
  if_true, if_cases, ==_refl, ==_ne, ==_iff, length-append, take-append-drop, take-length,
  drop-length, drop-length_next, drop-add, drop-length-add, get_elem?-append, is_empty-append,
  is_empty-append_cons, take_all, All-append, length-take, length-drop, ltb→lt, lt→ltb, leb→le,
  replicate, is_none, every, every-lt,
}
use webrtc_snippets.Common.Bytes.{
  Bytes, concat, overwrite, codes, Avoids, find_byte, find_byte_from, find_text, starts_with,
  substr, equal, equal_iff, equal_refl,
}
use webrtc_snippets.Common.Bytes.Find.{
  find_byte-append, find_byte-Avoids, find_byte_cases, find_byte_from-append, find_text-Avoids,
  find_text-none,
}
use webrtc_snippets.Practice.Catalog.{Exercise}
use webrtc_snippets.Practice.Capture.{ExitCode, TestRunResult, Process}
use webrtc_snippets.Practice.TestRunner.{
  TestRunner, Command, is_valid_day, test_state_name, run, run_solution,
}
use webrtc_snippets.Practice.Repository.{FileSystem, ExerciseSummary, ExerciseDetail, list, detail}

-- The library's JSON values, what the handlers make them from, and how one is written.
pub record Json : Type 1 where
  pub Wvalue : Type 0
  pub object : List (Bytes × Wvalue) → Wvalue
  pub array : List Wvalue → Wvalue
  pub text : Bytes → Wvalue
  pub number : ℕ → Wvalue
  pub code : ExitCode → Wvalue
  pub truth : Bool → Wvalue
  pub dump : Wvalue → Bytes

pub record Response : Type 0 where
  pub status : ℕ
  pub headers : List (Bytes × Bytes)
  pub content : Bytes

-- A file that cannot be opened is empty.
unfoldable pub read_web_asset : FileSystem → List Bytes → Bytes → Bytes
read_web_asset fs web_root filename = elim (fs.read (web_root ++ filename ∷ [])) [
  | none ↦ []
  | some content ↦ content
]

-- A response without headers.
abbrev pub plain : ℕ → Bytes → Response
plain status content = record { status = status; headers = []; content = content }

abbrev pub asset_response : Bytes → Bytes → Bytes → Response
asset_response content type cache = record {
  status = 200;
  headers = (codes "Content-Type", type) ∷ (codes "Cache-Control", cache) ∷ [];
  content = content;
}

unfoldable pub page_route : FileSystem → List Bytes → Response
unfolding read_web_asset
page_route fs web_root =
    let page = read_web_asset fs web_root (codes "index.html") in
    if is_empty page
    then plain 500 (codes "Learning site assets are unavailable.")
    else asset_response page (codes "text/html; charset=utf-8") (codes "no-store")

-- The routes of the scripts and of the style sheet.
unfoldable pub asset_route : FileSystem → List Bytes → Bytes → Bytes → Bytes → Response
unfolding read_web_asset
asset_route fs root filename type cache =
    let asset = read_web_asset fs root filename in
    if is_empty asset then plain 404 [] else asset_response asset type cache

abbrev pub javascript : Bytes
javascript = codes "application/javascript; charset=utf-8"

abbrev pub one_day : Bytes
one_day = codes "public, max-age=86400"

-- The fixed routes: the page, its script, and the files of `vendor`.
unfoldable pub asset_routes : FileSystem → List Bytes → List (Bytes × Response)
unfolding page_route asset_route
asset_routes fs web_root =
    let vendor = web_root ++ codes "vendor" ∷ [] in
    (codes "/", page_route fs web_root)
    ∷ (codes "/app.js", asset_route fs web_root (codes "app.js") javascript (codes "no-store"))
    ∷ (
      codes "/vendor/prism.min.css",
      asset_route fs vendor (codes "prism.min.css") (codes "text/css; charset=utf-8") one_day,
    )
    ∷ (codes "/vendor/prism.js", asset_route fs vendor (codes "prism.js") javascript one_day)
    ∷ (
      codes "/vendor/prism-c.min.js",
      asset_route fs vendor (codes "prism-c.min.js") javascript one_day,
    )
    ∷ (
      codes "/vendor/prism-cpp.min.js",
      asset_route fs vendor (codes "prism-cpp.min.js") javascript one_day,
    )
    ∷ []

module _ (j : Json) where
  abbrev pub json_response : ℕ → List (Bytes × j.Wvalue) → Response
  json_response status fields = record {
    status = status;
    headers =
        (codes "Content-Type", codes "application/json; charset=utf-8")
        ∷ (codes "Cache-Control", codes "no-store")
        ∷ [];
    content = j.dump (j.object fields);
  }

  abbrev pub error_response : ℕ → Bytes → Response
  error_response status message =
      json_response status ((codes "ok", j.truth false) ∷ (codes "error", j.text message) ∷ [])

  abbrev pub summary_to_json : ExerciseSummary → List (Bytes × j.Wvalue)
  summary_to_json s =
      (codes "day", j.number s.day)
      ∷ (codes "title", j.text s.title)
      ∷ (codes "cpp_topics", j.text s.cpp_topics)
      ∷ (codes "rtc_topics", j.text s.rtc_topics)
      ∷ (codes "summary", j.text s.summary)
      ∷ []

  abbrev pub health_route : Response
  health_route = json_response 200 ((codes "ok", j.truth true) ∷ [])

  abbrev pub exercises_route : List Exercise → Response
  exercises_route exercises =
      json_response 200 (
        (codes "exercises", j.array (map (λ s. j.object (summary_to_json s)) (list exercises)))
        ∷ [])

  abbrev pub detail_to_json : ExerciseDetail → List (Bytes × j.Wvalue)
  detail_to_json d =
      summary_to_json d.summary
      ++ (codes "readme", j.text d.readme)
        ∷ (codes "header", j.text d.header)
        ∷ (codes "source", j.text d.source)
        ∷ (codes "source_path", j.text d.source_path)
        ∷ []

  unfoldable pub exercise_route : FileSystem → List Exercise → List Bytes → ℕ → Response
  unfolding detail
  exercise_route fs exercises root day = elim (detail fs exercises root day) [
    | none ↦ error_response 404 (codes "Exercise not found.")
    | some d ↦ json_response 200 (detail_to_json d)
  ]

  abbrev pub result_response : ℕ → TestRunResult → Response
  result_response day r = json_response 200 (
      (codes "day", j.number day)
      ∷ (codes "state", j.text (test_state_name r.state))
      ∷ (codes "exit_code", j.code r.exit_code)
      ∷ (codes "elapsed_ms", j.number r.elapsed)
      ∷ (codes "output", j.text r.output)
      ∷ [])

  -- The routes that run a command for a day; `none` while a process still runs.
  unfoldable pub check_route : TestRunner → (Command → Process) → ℕ → Option Response
  unfolding is_valid_day run
  check_route r processes day =
      if not (is_valid_day day)
      then some (error_response 404 (codes "Exercise not found."))
      else (do result ← run r processes day; some (result_response day result))

  unfoldable pub run_route : TestRunner → (Command → Process) → ℕ → Option Response
  unfolding is_valid_day run_solution
  run_route r processes day =
      if not (is_valid_day day)
      then some (error_response 404 (codes "Exercise not found."))
      else (do result ← run_solution r processes day; some (result_response day result))
