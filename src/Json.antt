-- ===== src/Json.antt =====
-- common/Json.cc. A position in the text is the text from there on; `text.substr(start, *pos -
-- start)` is what lies between two such positions.
pub mod Parsed
pub mod Lexical
pub mod Values
pub mod Objects
pub mod Printer
pub mod Progress
pub mod Consuming
pub mod Totality
pub mod Stack
pub mod Mixed
pub mod RoundTrip
pub mod Framing
pub use Parsed.*
unfoldable pub use Lexical.{
  is_space, is_digit, skip_whitespace, hex_value, parse_json_string, parse_json_number_as_string,
  string_loop, string_step, between, skip_digits,
}
unfoldable pub use Values.{consume_json_value, parse_json_value_on, parse_json_value_as_string}
unfoldable pub use Objects.{parse_json_object, JsonObject}
unfoldable pub use Printer.{escape_json_string, serialize_json_object, make_json_line}
