-- ===== src/Logger.antt =====
-- webserver_project/src/logger/logger.c, one call at a time (each holds `log_mutex` from its
-- first line to its return). Whether the file opens and the time of a call, formatted, are
-- parameters; a stream is the text that was written to it, a file that of its path.
pub mod Calls
pub mod Session
pub mod Tests
use let_us_connect_http_serv.Base.{
  Bool, Bytes, Option, [], bytes_eq, codes, false, if◌then◌else◌, negsuc, none, pos, some, true, ℤ,
  ◌++◌, ◌-◌, ◌∷◌,
}
use let_us_connect_http_serv.CString.Format.{decimal}

-- `log_stream` and `logger_initialized`
pub data Stream : Type 0 where
  closed to_stdout : Stream
  to_file : Bytes → Stream

-- The two statics, and what has been written to the standard output and to the file of each path.
pub record Logger : Type 0 where
  pub stream : Stream
  pub initialized : Bool
  pub printed : Bytes
  pub files : Bytes → Bytes

-- What is passed to `logger_log_request`; NULL is `none`.
pub record Request : Type 0 where
  pub client_ip : Option Bytes
  pub method : Option Bytes
  pub path : Option Bytes
  pub status_code : ℤ
  pub host : Option Bytes

stream_of : Option Bytes → Bool → Logger → Logger × ℤ
stream_of none opens l = (record l { stream = to_stdout; initialized = true }, pos 0)
stream_of (some filepath) true l =
    (record l { stream = to_file filepath; initialized = true }, pos 0)
stream_of (some filepath) false l = (record l { stream = closed }, negsuc 0)

-- `opens`: whether `fopen(filepath, "a")` succeeds.
pub logger_init : Option Bytes → Bool → Logger → Logger × ℤ
unfolding stream_of
logger_init filepath opens l = if l.initialized then (l, pos 0) else stream_of filepath opens l

-- `if (s == NULL) s = "-";`
or_dash : Option Bytes → Bytes
or_dash none = b'-' ∷ []
or_dash (some s) = s

pub line : Bytes → Request → Bytes
unfolding or_dash
line timestamp r =
    or_dash r.client_ip
    ++ (codes " - - ["
        ++ (timestamp
            ++ (codes "] \""
                ++ (or_dash r.method
                    ++ (b' '
                        ∷ (or_dash r.path
                            ++ (codes "\" "
                                ++ (decimal r.status_code
                                    ++ (codes " (Host: " ++ (or_dash r.host ++ codes ")\n"))))))))))

-- The files with a text behind what is in one of them.
abbrev pub appended : Bytes → Bytes → (Bytes → Bytes) → Bytes → Bytes
appended filepath text files path =
    if bytes_eq path filepath then files path ++ text else files path

write : Bytes → Stream → Logger → Logger
write text closed l = l
write text to_stdout l = record l { printed = l.printed ++ text }
write text (to_file filepath) l = record l { files = appended filepath text l.files }

pub logger_log_request : Bytes → Request → Logger → Logger
unfolding write
logger_log_request timestamp r l = if l.initialized then write (line timestamp r) l.stream l else l

pub logger_destroy : Logger → Logger
logger_destroy l = if l.initialized then record l { stream = closed; initialized = false } else l

-- The statics at the start; the files have what was in them before.
abbrev pub logger_start : (Bytes → Bytes) → Logger
logger_start files = record { stream = closed; initialized = false; printed = []; files = files }
