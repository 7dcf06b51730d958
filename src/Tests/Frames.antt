-- ===== src/Tests/Frames.antt =====
-- Frames of events, and random ids of rooms.
use blueboat_cpp.Sio.Frames.{ArrayLaws}
use blueboat_cpp.Json.Sample.{read, write, Tree, items, to_list, a_value, sample, sample_laws}
use blueboat_cpp.Sio.{Msgpack}
use blueboat_cpp.Json.Sample.{whole}
use blueboat_cpp.Base.{◌≡◌, refl, ap, some, List, [], ◌∷◌, length}

-- The text of a tree stands for its packed bytes.
abbrev pub codec : Msgpack Tree
codec = record { encode = write; decode = λ s. whole (read (length s) a_value s) }

pub to_list-items : (vs : List Tree) → to_list (items vs) ≡ vs
unfolding items to_list
to_list-items [] = refl
to_list-items (v ∷ vs) = ap (◌∷◌ v) (to_list-items vs)

pub arrays : ArrayLaws sample sample_laws codec
arrays = record {
  elements_of_array = λ vs. ap some (to_list-items vs);
  is_string_of_string = λ s. refl;
}
