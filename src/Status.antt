-- ===== src/Status.antt =====
-- src/hawkbit-client.c: the JSON body of feedback and of the identification, as the calls of
-- json-glib's builder in their order.
pub mod Documents
use rauc_hawkbit_updater.Base.{String, Option, none, some, List, [], ◌∷◌, ◌++◌}
use rauc_hawkbit_updater.Config.{Table}
use rauc_hawkbit_updater.World.{
  BuilderCall, begin_object, end_object, begin_array, end_array, set_member_name, add_string_value,
}

id_member : Option String → List BuilderCall
id_member none = []
id_member (some id) = set_member_name "id" ∷ add_string_value id ∷ []

details_member : Option String → List BuilderCall
details_member none = []
details_member (some detail) =
    set_member_name "details" ∷ begin_array ∷ add_string_value detail ∷ end_array ∷ []

-- The `while` loop over the hash table, in the order of its iterator.
attribute_members : Table → List BuilderCall
attribute_members [] = []
attribute_members ((key, value) ∷ t) =
    set_member_name key ∷ add_string_value value ∷ attribute_members t

data_member : Option Table → List BuilderCall
data_member none = []
data_member (some attributes) =
    set_member_name "data" ∷ begin_object ∷ (attribute_members attributes ++ end_object ∷ [])

-- `time` is the current time in UTC as %Y%m%dT%H%M%S.
unfoldable pub json_build_status :
    String → Option String → Option String → String → String → Option Table → List BuilderCall
unfolding id_member details_member attribute_members data_member
json_build_status time id detail finished execution attributes =
    begin_object
    ∷ (id_member id
        ++ (set_member_name "time"
            ∷ add_string_value time
            ∷ set_member_name "status"
            ∷ begin_object
            ∷ set_member_name "result"
            ∷ begin_object
            ∷ set_member_name "finished"
            ∷ add_string_value finished
            ∷ end_object
            ∷ set_member_name "execution"
            ∷ add_string_value execution
            ∷ (details_member detail
                ++ (end_object ∷ (data_member attributes ++ end_object ∷ [])))))
