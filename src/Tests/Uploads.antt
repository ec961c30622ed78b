-- ===== src/Tests/Uploads.antt =====
-- An upload after a takedown.
use shortform_streaming.Prelude.{
  suc, ◌≡◌, ◌∙◌, refl, sym, ap, false, none, some, [], ◌∷◌, has_text, words,
}
use shortform_streaming.Model.{MediaAsset, MediaAssetState, Store, ok, ◌>>=◌}
use shortform_streaming.Catalog.Context.{
  resolve_launch_context, valid_scope, platform_codes, storefront_codes,
}
use shortform_streaming.Catalog.Rights.{series_is_admitted}
use shortform_streaming.Catalog.Episodes.{lock_episode_for_access}
use shortform_streaming.Catalog.Publication.{StringMethods}
use shortform_streaming.Playback.Polling.{no_provider}
use shortform_streaming.Playback.Takedown.{taken_down}
use shortform_streaming.Playback.Active.{IsOneActive}
use shortform_streaming.Playback.Uploads.Submitting.{accepted_master}
use shortform_streaming.Playback.Uploads.{find_active_for_episode, failed_sibling, Master}
use shortform_streaming.Playback.Uploads.Ingest.{Answers, ingest_master}
use shortform_streaming.Playback.Media.{start, next, taking_down, ingesting, MediaReach-IsOneActive}
use shortform_streaming.Tests.Media.{only_row, gone, takedown}
use shortform_streaming.Tests.World.{environment, asset, db}

abbrev emptied : Store
emptied = record db { assets = gone ∷ [] }

abbrev plain : StringMethods
plain = record { strip = λ s. s; upper = λ s. s; lower = λ s. s }

abbrev answers : Answers
answers = record { poll = no_provider; expire = taken_down; submit = accepted_master 77 }

abbrev submitted_row : MediaAsset
submitted_row = record {
  pk = db.next_id;
  episode_id = 1;
  checksum = 9;
  provider_asset_id = some 77;
  state = MediaAssetState.processing;
  captions_language = "en";
  has_captions = false;
  thumbnail_count = 0;
  duration_seconds = none;
  renditions = 0;
  diagnostic_message = none;
}

abbrev uploaded_again : Store
uploaded_again = record emptied { assets = submitted_row ∷ gone ∷ []; next_id = suc db.next_id }

abbrev master : Master
master = record { size = 100; checksum = 9 }

ingested :
    ingest_master environment plain 7 8 answers 1 master none "" (some 9) emptied
    ≡ ok (submitted_row, false) uploaded_again
unfolding ingest_master ◌>>=◌ has_text lock_episode_for_access platform_codes resolve_launch_context
    series_is_admitted failed_sibling find_active_for_episode storefront_codes valid_scope words
ingested = refl

db_safe : IsOneActive db
db_safe = record {
  same_row =
      λ x y mx my same fx fy. ap (λ z. z.pk) (only_row asset x mx ∙ sym (only_row asset y my));
}

MediaReach-IsOneActive_example : IsOneActive uploaded_again
MediaReach-IsOneActive_example =
    MediaReach-IsOneActive environment db uploaded_again
      (next (next start (taking_down taken_down 1 (gone, false) takedown))
        (ingesting plain 7 8 answers 1 master none "" (some 9) (submitted_row, false) ingested))
      db_safe
