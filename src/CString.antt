-- ===== src/CString.antt =====
-- The functions of <string.h>, <ctype.h> and <stdio.h> that the server calls, over the bytes of a
-- string without its NUL.
pub mod Compare
pub mod Search
pub mod Token
pub mod Split
pub mod Format
pub mod Number
