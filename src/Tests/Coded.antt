-- ===== src/Tests/Coded.antt =====
-- The frame of an event over the sample codec, with the sample values.
use blueboat_cpp.Tests.Frames.{to_list-items}
use blueboat_cpp.Msgpack.Fitting.{Fits}
use blueboat_cpp.Sio.Frames.{ArrayLaws}
use blueboat_cpp.Tests.Packing.{library, D, library_laws}
use blueboat_cpp.Msgpack.Frames
use blueboat_cpp.Msgpack.{
  Value, Values, Fields, null, integer, string, array, object, pos, value, field, no_values,
  no_fields,
}
use blueboat_cpp.Json.Sample
use blueboat_cpp.Json.Sample.{sample, sample_laws, Tree, Items, num}
use blueboat_cpp.Sio.{parse_frame, build_event_frame, blank, event}
use blueboat_cpp.Sio
use mathlib.Core.Path.{ap₂}
use blueboat_cpp.Base.{◌≡◌, refl, ap, true, some, arith, codes, bytes_eq, ok}

abbrev leaves : Frames.Leaves sample D
leaves = record {
  of_boolean = λ b. Sample.nil;
  of_negative = λ n. Sample.nil;
  of_float = λ d. Sample.nil;
  of_binary = λ s. Sample.nil;
  of_discarded = Sample.nil;
}

unfoldable mutual
  kind_of : Tree → Value D
  kind_of Sample.nil = null
  kind_of (Sample.num n) = integer (pos n)
  kind_of (Sample.str s) = string s
  kind_of (Sample.arr vs) = array (kinds_of vs)
  kind_of (Sample.obj fs) = object (kinds_of_fields fs)

  kinds_of : Items → Values D
  kinds_of Sample.end = no_values
  kinds_of (Sample.item v vs) = value (kind_of v) (kinds_of vs)

  kinds_of_fields : Sample.Fields → Fields D
  kinds_of_fields Sample.stop = no_fields
  kinds_of_fields (Sample.field k v fs) = field k (kind_of v) (kinds_of_fields fs)

mutual
  unfolding kind_of Frames.value_of Sample.fields Sample.items

  value_of-kind_of : (t : Tree) → Frames.value_of leaves (kind_of t) ≡ t
  value_of-kind_of Sample.nil = refl
  value_of-kind_of (Sample.num n) = refl
  value_of-kind_of (Sample.str s) = refl
  value_of-kind_of (Sample.arr vs) = ap Sample.arr (values_of-kinds_of vs)
  value_of-kind_of (Sample.obj fs) = ap Sample.obj (fields_of-kinds_of fs)

  values_of-kinds_of : (vs : Items) → Sample.items (Frames.values_of leaves (kinds_of vs)) ≡ vs
  values_of-kinds_of Sample.end = refl
  values_of-kinds_of (Sample.item v vs) =
      ap₂ Sample.item (value_of-kind_of v) (values_of-kinds_of vs)

  fields_of-kinds_of :
      (fs : Sample.Fields) → Sample.fields (Frames.fields_of leaves (kinds_of_fields fs)) ≡ fs
  fields_of-kinds_of Sample.stop = refl
  fields_of-kinds_of (Sample.field k v fs) =
      ap₂ (Sample.field k) (value_of-kind_of v) (fields_of-kinds_of fs)

abbrev kinds : Frames.Kinds leaves
kinds = record { kinds = kind_of; value_of-kinds = value_of-kind_of }

abbrev coded : Sio.Msgpack Tree
coded = Frames.coder leaves kinds library

coded_arrays : ArrayLaws sample sample_laws coded
coded_arrays = record {
  elements_of_array = λ vs. ap some (to_list-items vs);
  is_string_of_string = λ s. refl;
}

parse_frame-coder_example :
    parse_frame sample coded true (build_event_frame sample coded (codes "move") (num 5))
    ≡ ok (record (blank sample coded) { kind = event; event_name = codes "move"; content = num 5 })
unfolding kind_of Fits Frames.IsPlain Sample.fields Sample.items bytes_eq
parse_frame-coder_example =
    Frames.parse_frame-coder sample sample_laws leaves kinds library library_laws coded_arrays
      (codes "move") (num 5) (λ e. cc)
      (
        (
          omega arith,
          (
            omega arith,
            refl,
            omega arith,
            (
              omega arith,
              refl,
              omega arith,
              (omega arith, refl, (omega arith, (omega arith, (omega arith, tt))), tt),
            ),
          ),
        ),
        (tt, (tt, ((tt, (tt, tt)), tt))),
      )
