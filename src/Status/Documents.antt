-- ===== src/Status/Documents.antt =====
-- src/hawkbit-client.c: the calls that json_build_status makes write one well-formed document.
use rauc_hawkbit_updater.Base.{String, Option, none, some, List, [], ◌∷◌, ◌++◌, ◌≡◌, refl}
use mathlib.Core.List.{append_assoc}
use rauc_hawkbit_updater.Config.{Table}
use rauc_hawkbit_updater.World.{
  BuilderCall, begin_object, end_object, begin_array, end_array, set_member_name, add_string_value,
}
use rauc_hawkbit_updater.Status.{json_build_status, attribute_members}

-- JSON documents of texts, and the builder's calls for one: each value is closed where it was opened,
-- and each member of an object has a name and one value.
mutual
  pub data Document : Type 0 where
    text : String → Document
    object : Members → Document
    array : Items → Document

  pub data Members : Type 0 where
    end : Members
    member : String → Document → Members → Members

  pub data Items : Type 0 where
    nil : Items
    item : Document → Items → Items

unfoldable mutual
  pub write : Document → List BuilderCall
  write (text s) = add_string_value s ∷ []
  write (object ms) = begin_object ∷ (write_members ms ++ end_object ∷ [])
  write (array is) = begin_array ∷ (write_items is ++ end_array ∷ [])

  pub write_members : Members → List BuilderCall
  write_members end = []
  write_members (member k d ms) = set_member_name k ∷ (write d ++ write_members ms)

  pub write_items : Items → List BuilderCall
  write_items nil = []
  write_items (item d is) = write d ++ write_items is

abbrev pub optional : String → Option Document → Members → Members
optional k none ms = ms
optional k (some d) ms = member k d ms

abbrev pub attributes_of : Table → Members
attributes_of [] = end
attributes_of ((k, v) ∷ t) = member k (text v) (attributes_of t)

abbrev pub as_text : Option String → Option Document
as_text none = none
as_text (some s) = some (text s)

abbrev pub as_list : Option String → Option Document
as_list none = none
as_list (some s) = some (array (item (text s) nil))

abbrev pub as_object : Option Table → Option Document
as_object none = none
as_object (some t) = some (object (attributes_of t))

-- The status of the DDI API: {id?, time, status: {result: {finished}, execution, details?}, data?}.
abbrev pub status_document :
    String → Option String → Option String → String → String → Option Table → Document
status_document time id detail finished execution attributes = object (
    optional "id" (as_text id) (
      member "time" (text time) (
        member "status"
          (object (
            member "result" (object (member "finished" (text finished) end))
              (member "execution" (text execution) (optional "details" (as_list detail) end))))
          (optional "data" (as_object attributes) end))))

attribute_members-write : (t : Table) → attribute_members t ≡ write_members (attributes_of t)
unfolding attribute_members write write_members
attribute_members-write [] = refl
attribute_members-write ((k, v) ∷ t) = rw (attribute_members-write t) refl

-- Whatever is optional in a request, the calls made of the builder are those that write the status
-- document of the DDI API: every object and array is closed, and every member has one value.
pub json_build_status-document :
    (time : String) (id detail : Option String) (finished execution : String)
    (attributes : Option Table)
    → json_build_status time id detail finished execution attributes
      ≡ write (status_document time id detail finished execution attributes)
unfolding json_build_status write write_members write_items
json_build_status-document time none none finished execution none = refl
json_build_status-document time none none finished execution (some t) =
    simp (attribute_members-write, append_assoc)
json_build_status-document time none (some d) finished execution none = refl
json_build_status-document time none (some d) finished execution (some t) =
    simp (attribute_members-write, append_assoc)
json_build_status-document time (some i) none finished execution none = refl
json_build_status-document time (some i) none finished execution (some t) =
    simp (attribute_members-write, append_assoc)
json_build_status-document time (some i) (some d) finished execution none = refl
json_build_status-document time (some i) (some d) finished execution (some t) =
    simp (attribute_members-write, append_assoc)
