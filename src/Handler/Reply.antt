-- ===== src/Handler/Reply.antt =====
-- What counts as one answer to a request, and the refusals of the handler.
use let_us_connect_http_serv.Base.{
  All, Bool, Bytes, List, Outcome, [], arith, codes, false, if◌then◌else◌, length, ok, pos, refl,
  some, true, ℕ, ◌<◌, ◌∷◌, ◌≡◌, ◌≤◌,
}
use let_us_connect_http_serv.CString.Search.{is_prefix}
use let_us_connect_http_serv.CString.Format.{decimal}
use let_us_connect_http_serv.Response.{error_body, reason}
use let_us_connect_http_serv.Response.Head.{head_text-status_start, status_start}
use let_us_connect_http_serv.Response.Error.{error_head, send_error_lem}
use let_us_connect_http_serv.Handler.{
  Action, Fields, logged, logs_request, makes_public, refuse, sends, sends_file, writes_log,
}

-- The codes of the log entries, in order.
unfoldable pub logged_codes : List Action → List ℕ
logged_codes [] = []
logged_codes (logs_request _ _ _ code _ ∷ rest) = code ∷ logged_codes rest
logged_codes (sends _ ∷ rest) = logged_codes rest
logged_codes (sends_file _ _ ∷ rest) = logged_codes rest
logged_codes (makes_public ∷ rest) = logged_codes rest
logged_codes (writes_log _ ∷ rest) = logged_codes rest

-- What is sent, in order: the buffers and the files.
unfoldable pub output : List Action → List Action
output [] = []
output (sends buffer ∷ rest) = sends buffer ∷ output rest
output (sends_file path size ∷ rest) = sends_file path size ∷ output rest
output (logs_request _ _ _ _ _ ∷ rest) = output rest
output (makes_public ∷ rest) = output rest
output (writes_log _ ∷ rest) = output rest

-- What may follow a head: a buffer that is no head itself, or a file.
abbrev pub IsBody : Action → Type 0
IsBody (sends buffer) = is_prefix (codes "HTTP/") buffer ≡ false
IsBody (sends_file _ _) = Unit
IsBody _ = ⊥

-- One answer, with a status: what is sent is a head with that status and at most one body, which
-- is no other head, and nothing else; and the request is logged once, with that status.
pub record Answers (code : ℕ) (actions : List Action) : Type 0 where
  pub head : Bytes
  pub body : List Action
  pub sends_head : output actions ≡ sends head ∷ body
  pub one_body : length body ≤ 1
  pub no_other_head : All IsBody body
  pub has_status : is_prefix (status_start (decimal (pos code))) head ≡ true
  pub logs_once : logged_codes actions ≡ code ∷ []

-- A result with no fault, and what holds of it.
abbrev pub Answered : Outcome (List Action) → Type 0
Answered m = (actions : List Action) × (code : ℕ) × (m ≡ ok actions) × Answers code actions

pub if_Answered :
    (b : Bool) (m n : Outcome (List Action))
    → Answered m
    → Answered n
    → Answered (if b then m else n)
if_Answered true m n hm hn = hm
if_Answered false m n hm hn = hn

pub refuse_lem :
    (f : Fields) (code : ℕ)
    → code < 1000
    → refuse f code ≡ ok (sends (error_head code) ∷ sends (error_body code) ∷ logged f code ∷ [])
unfolding refuse
refuse_lem f code h = rw (send_error_lem code h) refl

pub refuse-Answered : (f : Fields) (code : ℕ) → code < 1000 → Answered (refuse f code)
unfolding logged output logged_codes is_prefix error_body
refuse-Answered f code h = (
  sends (error_head code) ∷ sends (error_body code) ∷ logged f code ∷ [],
  code,
  refuse_lem f code h,
  record {
    head = error_head code;
    body = sends (error_body code) ∷ [];
    sends_head = refl;
    one_body = omega arith;
    no_other_head = (refl, tt);
    has_status =
        head_text-status_start (decimal (pos code)) (reason code) (codes "text/html")
          (pos (length (error_body code))) (some []) false;
    logs_once = refl;
  },
)
