-- ===== src/Tests/Values.antt =====
-- Tests of the parser of values.
use lake_go.Values.Scanner.{read_number, unread, ends_number, read, Runes, wrapped, unexpected}
use lake_go.Prelude.{◌≡◌, refl, Bool, true, false, none, [], ◌∷◌, Bytes, codes}
use lake_go.Prelude.Decimal.{ℤ}
use lake_go.Prelude.Result.{Result, ok, err}
use lake_go.Types.TypeDesc.{TypeDesc, desc, nil, cons}
use lake_go.Values.Parser.{f64, b8, b32, DataValue, DataValues, DataParser, DataParsers, ValueLib}
use lake_go.Values.Parse.{parse, has_type, have_types, array_loop, expect, skip_comma}
use lake_go.Values.Reads.{
  Reads, ReadsAll, element, no_elements, number-Reads, array-Reads, tuple-Reads, ReadsFields, field,
  no_fields,
}
use lake_go.Values.Fails.{Fails, fails, array_of_strings-Fails, nullable-lost}
use lake_go.Values.Length.{runs_out}
use lake_go.Values.Total.{RefusesEmpty}
use lake_go.Values.Build.{BuildLib, new_data_parser, named_parser}
use lake_go.Values.Build.Total.{new_data_parser-parse}

-- Floats, zones, instants and errors are texts here, and every text but the empty one is a number.
abbrev read_float : Runes → Result Bytes Runes
read_float [] = err []
read_float (c ∷ t) = ok (c ∷ t)

abbrev read_bool : Runes → Result Bytes Bool
read_bool [] = err []
read_bool (c ∷ t) = ok true

abbrev std : ValueLib Bytes Runes Bytes Bytes
std = record {
  parse_float = λ bits t. read_float t;
  parse_bool = read_bool;
  parse_in_location = λ format t z. ok t;
  zero_time = [];
}

std-RefusesEmpty : RefusesEmpty std
std-RefusesEmpty = record { no_float = λ bits. fails; no_bool = fails }

abbrev build : BuildLib Bytes Bytes
build = record { utc = codes "UTC"; load_location = λ s. ok s; atoi = λ s. ok (ℤ.pos 3) }

abbrev ints : DataParser Bytes
ints = DataParser.array (DataParser.int true b32)

ints_typed : has_type {Z = Bytes} (DataParser.int true b32) ≡ true
unfolding has_type
ints_typed = refl

abbrev two_three : DataValues Runes Bytes
two_three =
    DataValues.more (DataValue.int true b32 (codes "2"))
      (DataValues.more (DataValue.int true b32 (codes "3")) DataValues.empty)

two_three-ReadsAll :
    ReadsAll (parse std (DataParser.int true b32)) (codes "2" ∷ codes "3" ∷ []) two_three
unfolding ends_number
two_three-ReadsAll =
    element refl refl (number-Reads std true b32 (codes "2") (codes "2") ((refl, refl), tt) refl) (
      element refl refl (number-Reads std true b32 (codes "3") (codes "3") ((refl, refl), tt) refl)
        no_elements)

array-Reads_example : Reads (parse std ints) (codes "[2,3]") (DataValue.array two_three)
array-Reads_example = array-Reads std (DataParser.int true b32) ints_typed two_three-ReadsAll

abbrev pair : DataParsers Bytes
pair = DataParsers.more (DataParser.int true b32) (DataParsers.more ints DataParsers.empty)

pair_typed : have_types pair ≡ true
unfolding have_types has_type
pair_typed = refl

pair-ReadsFields : ReadsFields std pair (codes "1" ∷ codes "[2,3]" ∷ []) (
    DataValues.more
      (DataValue.int true b32 (codes "1"))
      (DataValues.more (DataValue.array two_three) DataValues.empty))
unfolding ends_number
pair-ReadsFields =
    field refl (number-Reads std true b32 (codes "1") (codes "1") ((refl, refl), tt) refl) (
      field refl (array-Reads std (DataParser.int true b32) ints_typed two_three-ReadsAll)
        no_fields)

tuple-Reads_example : Reads (parse std (DataParser.tuple pair)) (codes "(1,[2,3])") (
    DataValue.tuple (
      DataValues.more
        (DataValue.int true b32 (codes "1"))
        (DataValues.more (DataValue.array two_three) DataValues.empty)))
tuple-Reads_example = tuple-Reads std pair pair_typed pair-ReadsFields

array_of_strings-Fails_example :
    (p : DataParser Bytes) × (new_data_parser build none false
        (desc (codes "Array") false (cons (desc (codes "String") false nil) nil))
      ≡ ok p)
    × Fails (parse std p (record { rest = codes "['a','b']"; last = none }))
array_of_strings-Fails_example =
    array_of_strings-Fails std build none b'\'' (codes "a','b']") none refl
      (refl, (refl, (refl, (refl, (refl, (refl, (refl, (refl, tt))))))))

nullable-lost_example :
    parse std
      (DataParser.nullable (codes "Float64") (DataParser.float f64))
      (record { rest = codes "NaN"; last = none })
    ≡ parse std (DataParser.float f64) (record { rest = codes "aN"; last = none })
nullable-lost_example =
    nullable-lost std (codes "Float64") (DataParser.float f64) b'a' (codes "N") none refl refl

abbrev nested : TypeDesc
nested =
    desc (codes "Array") false
      (cons (desc (codes "Array") false (cons (desc (codes "Int8") false nil) nil)) nil)

abbrev int8s : DataParser Bytes
int8s = DataParser.array (DataParser.array (DataParser.int true b8))

nested_run : new_data_parser build none false nested ≡ ok int8s
unfolding new_data_parser named_parser
nested_run = refl

open_run :
    parse std int8s (record { rest = codes "[[1]"; last = none }) ≡ err (wrapped (unexpected 0))
unfolding parse expect read has_type array_loop unread read_number skip_comma
open_run = refl

new_data_parser-parse_example : runs_out {E = Bytes} (wrapped (unexpected 0)) ≡ false
new_data_parser-parse_example =
    new_data_parser-parse std std-RefusesEmpty build none false nested int8s
      (record { rest = codes "[[1]"; last = none }) (wrapped (unexpected 0)) nested_run open_run
