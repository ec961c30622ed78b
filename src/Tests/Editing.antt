-- ===== src/Tests/Editing.antt =====
-- A series to publish, a viewer who resumes and one who signs in (backend/apps/catalog,
-- backend/apps/progress and backend/apps/accounts).
use shortform_streaming.Model.{Subject}
use shortform_streaming.Prelude.{
  has_text, matches_nonspace, ◌≡◌, ◌≤◌, refl, false, some, [], ◌∷◌, All, length,
}
use shortform_streaming.Model.{UserProfile, Store, ok, ◌>>=◌}
use shortform_streaming.Accounts.{RawUid, get_or_create_profile, current_profile, is_deleted}
use shortform_streaming.Accounts.SigningIn.{get_or_create_profile-current_profile}
use shortform_streaming.Catalog.Eligibility.{in_eligible_series_queryset}
use shortform_streaming.Catalog.Publication.{is_accepted, series_clean}
use shortform_streaming.Catalog.Publication.Gates.{AreReadAlike, series_clean-eq-query}
use shortform_streaming.Progress.Continue.{ProgressRow, list_continue_watching}
use shortform_streaming.Progress.Continue.Offered.{IsOffered, list_continue_watching-IsOffered}
use shortform_streaming.Tests.World.{environment, settings, series, db}

texts_alike : AreReadAlike db.regex_space series
unfolding has_text matches_nonspace
texts_alike = record {
  provenance = λ own. refl;
  title = refl;
  synopsis = refl;
  translations = λ t m. elim m [ ];
}

series_clean-eq-query_example :
    is_accepted (series_clean settings db 7 series)
    ≡ in_eligible_series_queryset settings db 7 series
series_clean-eq-query_example = series_clean-eq-query settings db 7 series refl texts_alike

abbrev watched : ProgressRow
watched = record {
  pk = 1;
  progress = record {
    subject = Subject.user 1;
    episode = 1;
    position_seconds = 30;
    completed = false;
    updated_at = 5;
  };
}

list_continue_watching-IsOffered_example :
    (length (list_continue_watching settings (λ e. e.order) db 7 (Subject.user 1) (watched ∷ []))
      ≤ 8)
    × All
        (IsOffered settings db 7)
        (list_continue_watching settings (λ e. e.order) db 7 (Subject.user 1) (watched ∷ []))
list_continue_watching-IsOffered_example =
    list_continue_watching-IsOffered settings (λ e. e.order) db 7 (Subject.user 1) (watched ∷ [])

abbrev visitor : RawUid
visitor = record { stripped_length = 5; uid = 77 }

abbrev newcomer : UserProfile
newcomer = record { pk = 1000; firebase_uid = 77; ads_consent = false }

abbrev welcomed : Store
welcomed = record db { profiles = newcomer ∷ db.profiles; next_id = 1001 }

signed : get_or_create_profile environment visitor db ≡ ok newcomer welcomed
unfolding get_or_create_profile ◌>>=◌
signed = refl

get_or_create_profile-current_profile_example :
    (current_profile environment newcomer welcomed ≡ some newcomer)
    × (newcomer.firebase_uid ≡ visitor.uid)
    × (is_deleted environment 77 db ≡ false)
get_or_create_profile-current_profile_example =
    get_or_create_profile-current_profile environment visitor db welcomed newcomer signed
      (λ q known. absurd (cc known))
