-- ===== src/Go.antt =====
-- What the program uses of Go's standard library on texts: `strings`, `net` and `encoding/base64`.
-- A Go string is a sequence of UTF-8 bytes; it is modelled as its characters (`codes`), so the
-- models speak of strings that are valid UTF-8.
pub mod Strings
pub mod Ip
pub mod Mac
pub mod Base64
pub mod Sort
pub mod Numbers
pub mod Netip
pub mod Hash
pub mod Same
pub mod HostPort
mod Examples
