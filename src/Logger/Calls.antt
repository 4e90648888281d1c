-- ===== src/Logger/Calls.antt =====
-- What single calls do to a logger, for a program that makes them.
use let_us_connect_http_serv.Base.{
  Bool-cases, Bytes, false, inl, inr, negsuc, pos, refl, some, true, ◌≡◌,
}
use let_us_connect_http_serv.Logger.{
  Logger, Request, appended, closed, line, logger_destroy, logger_init, logger_log_request,
  stream_of, to_file, write,
}

pub logger_destroy-initialized : (l : Logger) → (logger_destroy l).initialized ≡ false
unfolding logger_destroy
logger_destroy-initialized l = elim (Bool-cases l.initialized) [
  | inl e ↦ simp e refl
  | inr e ↦ simp e refl
]

pub logger_destroy-files : (l : Logger) → (logger_destroy l).files ≡ l.files
unfolding logger_destroy
logger_destroy-files l = elim (Bool-cases l.initialized) [
  | inl e ↦ simp e refl
  | inr e ↦ simp e refl
]

-- `l` with a file open.
abbrev pub opened_file : Bytes → Logger → Logger
opened_file path l = record l { stream = to_file path; initialized = true }

pub logger_init-opens :
    (path : Bytes) (l : Logger)
    → l.initialized ≡ false
    → logger_init (some path) true l ≡ (opened_file path l, pos 0)
unfolding logger_init stream_of
logger_init-opens path l e = simp e refl

pub logger_init-fails :
    (path : Bytes) (l : Logger)
    → l.initialized ≡ false
    → logger_init (some path) false l ≡ (record l { stream = closed }, negsuc 0)
unfolding logger_init stream_of
logger_init-fails path l e = simp e refl

pub logger_log_request-opened :
    (path timestamp : Bytes) (r : Request) (l : Logger)
    → logger_log_request timestamp r (opened_file path l)
      ≡ opened_file path (record l { files = appended path (line timestamp r) l.files })
unfolding logger_log_request write
logger_log_request-opened path timestamp r l = refl
