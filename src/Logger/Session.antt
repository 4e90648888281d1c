-- ===== src/Logger/Session.antt =====
-- Any run of calls of the logger.
use let_us_connect_http_serv.Base.{
  Bool, Bytes, List, Option, [], ap, append-nil, append_assoc, bytes_eq, false, if◌then◌else◌, none,
  refl, some, sym, true, ◌++◌, ◌∙◌, ◌∷◌, ◌≡◌,
}
use let_us_connect_http_serv.Logger.{
  Logger, Request, closed, line, logger_destroy, logger_init, logger_log_request, stream_of,
  to_file, to_stdout, write,
}

pub data Call : Type 0 where
  init : Option Bytes → Bool → Call
  log : Bytes → Request → Call
  destroy : Call

pub step : Call → Logger → Logger
step (init filepath opens) l = (logger_init filepath opens l).0
step (log timestamp r) l = logger_log_request timestamp r l
step destroy l = logger_destroy l

pub steps : List Call → Logger → Logger
unfolding step
steps [] l = l
steps (c ∷ calls) l = steps calls (step c l)

-- The specification: a run opens and closes one sink at a time, and a log call appends one line to
-- the one that is open: `none` is the standard output, `some path` the file of that path.
abbrev opened : Option Bytes → Bool → Option (Option Bytes)
opened none opens = some none
opened (some path) true = some (some path)
opened (some _) false = none

abbrev after_init : Option (Option Bytes) → Option Bytes → Bool → Option (Option Bytes)
after_init (some sink) filepath opens = some sink
after_init none filepath opens = opened filepath opens

abbrev sink_line : Option Bytes → Option (Option Bytes) → Bytes → Bytes
sink_line none (some none) text = text
sink_line none _ text = []
sink_line (some path) (some (some filepath)) text = if bytes_eq path filepath then text else []
sink_line (some path) _ text = []

-- The lines that a run writes to a sink.
unfoldable pub written : Option Bytes → Option (Option Bytes) → List Call → Bytes
written sink now [] = []
written sink now (init filepath opens ∷ calls) = written sink (after_init now filepath opens) calls
written sink now (log timestamp r ∷ calls) =
    sink_line sink now (line timestamp r) ++ written sink now calls
written sink now (destroy ∷ calls) = written sink none calls

-- A logger with this sink open.
abbrev pub logger_with : Option (Option Bytes) → Bytes → (Bytes → Bytes) → Logger
logger_with none printed files = record {
  stream = closed;
  initialized = false;
  printed = printed;
  files = files;
}
logger_with (some (some path)) printed files = record {
  stream = to_file path;
  initialized = true;
  printed = printed;
  files = files;
}
logger_with (some none) printed files = record {
  stream = to_stdout;
  initialized = true;
  printed = printed;
  files = files;
}

init_lem :
    (now : Option (Option Bytes)) (printed : Bytes) (files : Bytes → Bytes)
    (filepath : Option Bytes) (opens : Bool)
    → (logger_init filepath opens (logger_with now printed files)).0
      ≡ logger_with (after_init now filepath opens) printed files
unfolding logger_init stream_of
init_lem (some (some _)) printed files filepath opens = refl
init_lem (some none) printed files filepath opens = refl
init_lem none printed files none opens = refl
init_lem none printed files (some _) true = refl
init_lem none printed files (some _) false = refl

appended_at :
    (b : Bool) (before text : Bytes)
    → (if b then before ++ text else before) ≡ before ++ (if b then text else [])
appended_at true before text = refl
appended_at false before text = sym (append-nil before)

log_lem :
    (now : Option (Option Bytes)) (printed : Bytes) (files : Bytes → Bytes) (timestamp : Bytes)
    (r : Request)
    → logger_log_request timestamp r (logger_with now printed files)
      ≡ logger_with now
          (printed ++ sink_line none now (line timestamp r))
          (λ path. files path ++ sink_line (some path) now (line timestamp r))
unfolding logger_log_request write
log_lem none printed files timestamp r =
    λ i. logger_with none (sym (append-nil printed) i) (λ path. sym (append-nil (files path)) i)
log_lem (some none) printed files timestamp r = λ i.
    logger_with (some none) (printed ++ line timestamp r) (λ path. sym (append-nil (files path)) i)
log_lem (some (some q)) printed files timestamp r = λ i.
    logger_with (some (some q)) (sym (append-nil printed) i)
      (λ path. appended_at (bytes_eq path q) (files path) (line timestamp r) i)

destroy_lem :
    (now : Option (Option Bytes)) (printed : Bytes) (files : Bytes → Bytes)
    → logger_destroy (logger_with now printed files) ≡ logger_with none printed files
unfolding logger_destroy
destroy_lem none printed files = refl
destroy_lem (some (some _)) printed files = refl
destroy_lem (some none) printed files = refl

-- Which sink is open after a run.
pub open_after : Option (Option Bytes) → List Call → Option (Option Bytes)
open_after now [] = now
open_after now (init filepath opens ∷ calls) = open_after (after_init now filepath opens) calls
open_after now (log _ _ ∷ calls) = open_after now calls
open_after now (destroy ∷ calls) = open_after none calls

-- Any run of the calls, from any sink: each call of `logger_log_request` appends its line to the
-- sink that the first successful `logger_init` since the last `logger_destroy` opened, the standard
-- output or the file of the path that was given, and no line to any other; nothing that was written
-- is changed.
pub steps-refines :
    (calls : List Call) (now : Option (Option Bytes)) (printed : Bytes) (files : Bytes → Bytes)
    → steps calls (logger_with now printed files)
      ≡ logger_with
          (open_after now calls)
          (printed ++ written none now calls)
          (λ path. files path ++ written (some path) now calls)
unfolding steps step written open_after
steps-refines [] now printed files =
    λ i. logger_with now (sym (append-nil printed) i) (λ path. sym (append-nil (files path)) i)
steps-refines (init filepath opens ∷ calls) now printed files =
    ap (steps calls) (init_lem now printed files filepath opens)
    ∙ steps-refines calls (after_init now filepath opens) printed files
steps-refines (log timestamp r ∷ calls) now printed files =
    let text = line timestamp r in
    ap (steps calls) (log_lem now printed files timestamp r)
    ∙ steps-refines calls now (printed ++ sink_line none now text)
        (λ path. files path ++ sink_line (some path) now text)
    ∙ (λ i.
        logger_with (open_after now calls)
          (append_assoc printed (sink_line none now text) (written none now calls) i)
          (λ path.
            append_assoc (files path) (sink_line (some path) now text)
              (written (some path) now calls) i))
steps-refines (destroy ∷ calls) now printed files =
    ap (steps calls) (destroy_lem now printed files) ∙ steps-refines calls none printed files
