-- ===== src/Command/Json.antt =====
-- The part of nlohmann::json (a third-party library) that the command parser calls, as an
-- interface: queries answer `none` where the value has another type.
use cherupi_v4l.Base.{Bool, Option, String, ℕ}
use cherupi_v4l.Base.Int.{ℤ}

pub record Json : Type 1 where
  pub Value : Type 0
  pub Double : Type 0
  -- json::parse; `none` is json::exception.
  pub parse : String → Option Value
  -- contains(key), and operator[] where it holds; `none` on a value that is no object.
  pub field : Value → String → Option Value
  -- is_string() and get<std::string>(), and so on for the other types.
  pub string : Value → Option String
  pub boolean : Value → Option Bool
  -- is_number_integer() and get<int64_t>()
  pub integer : Value → Option ℤ
  -- is_number_unsigned() and get<size_t>()
  pub unsigned : Value → Option ℕ
  -- is_number() and get<double>()
  pub number : Value → Option Double
  -- The implicit conversions; `none` is json::type_error.
  pub to_int : Value → Option ℤ
  pub to_size : Value → Option ℕ
  pub to_u32 : Value → Option ℕ
  -- The comparisons and constants of `double`, and the conversion to `float`.
  pub le : Double → Double → Bool
  pub lt : Double → Double → Bool
  pub of_ℕ : ℕ → Double
  pub to_float : Double → Double
  -- The literal 2.2f.
  pub gamma_default : Double
