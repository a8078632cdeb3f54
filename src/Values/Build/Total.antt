-- ===== src/Values/Build/Total.antt =====
-- A value of a type is parsed to the end.
use lake_go.Prelude.{◌≡◌, Bool, true, false, Option}
use lake_go.Prelude.Result.{ok, err, OnOk-ok}
use lake_go.Types.TypeDesc.{TypeDesc}
use lake_go.Values.Scanner.{Scanner, ParseError}
use lake_go.Values.Parser.{DataParser, ValueLib}
use lake_go.Values.Parse.{parse}
use lake_go.Values.Parse.Ends.{Ends, Ends-err, parse-Ends, Good-Ends, parse-Good}
use lake_go.Values.Length.{runs_out, size}
use lake_go.Values.Total.{RefusesEmpty}
use lake_go.Values.Build.{BuildLib, DataParserOptions, new_data_parser}
use lake_go.Values.Build.Fits.{fits, new_data_parser-Fit}

module _ {Z F T E : Type 0} (std : ValueLib Z F T E) (law : RefusesEmpty std) (build : BuildLib Z E)
    (opt : Option (DataParserOptions Z)) where
  fits-Ends : (u : Bool) (p : DataParser Z) (s : Scanner) → fits u p ≡ true → Ends (parse std p s)
  unfolding fits
  fits-Ends true p s h = Good-Ends std law (size s) _ (parse-Good std law p h s)
  fits-Ends false p s h = parse-Ends std law p h s

  -- The parser that there is for a type, quoted or not, comes to an end on every text: each loop over the
  -- elements of an array or the entries of a map reads a rune in each turn, so an error is never the one
  -- of the model's fuel. Of the standard library only that the empty text is no number and no Boolean.
  pub new_data_parser-parse :
      (unquote : Bool) (d : TypeDesc) (p : DataParser Z) (s : Scanner) (e : ParseError E)
      → new_data_parser build opt unquote d ≡ ok p
      → parse std p s ≡ err e
      → runs_out e ≡ false
  new_data_parser-parse unquote d p s e h k =
      Ends-err (fits-Ends unquote p s (OnOk-ok (new_data_parser-Fit build opt unquote d) h)) k
