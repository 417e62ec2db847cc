-- ===== src/Shared/Storage.antt =====
-- What the pages keep in the browser's storage (web/src/shared.ts: readCustomerDraft,
-- readLastSalesChannel, rememberSalesChannel). The storage may throw on every access, as it does
-- in embedded browsers.
use radif.Prelude.{
  if◌then◌else◌, all, text, text_eq, Text, ◌≡◌, refl, Bool, true, false, Option, none, some, List,
  [], ◌∷◌, ◌++◌,
}
use radif.Shared.Types.{CustomerDraft, SalesChannel, instagram, whatsapp, telegram, bale, other}

-- What `JSON.parse` gives for the stored text: nothing (it throws), `null`, or the own fields of a
-- value, each a string or something else. A value that is no object has no field.
pub data Field : Type 0 where
  string : Text → Field
  not_string : Field

pub data Parsed : Type 0 where
  unparsable null : Parsed
  fields : List (Text × Field) → Parsed

unfoldable pub empty_customer_draft : CustomerDraft
empty_customer_draft = record {
  full_name = [];
  mobile = [];
  address = [];
  postal_code = [];
  note = [];
}

abbrev pub is_string : Text × Field → Bool
is_string (_, string _) = true
is_string (_, not_string) = false

field_or : Text → Text → List (Text × Field) → Text
field_or d key [] = d
field_or d key ((k, not_string) ∷ fs) = field_or d key fs
field_or d key ((k, string v) ∷ fs) = if text_eq k key then v else field_or d key fs

-- `{ ...emptyCustomerDraft, ...value }`; a JSON object has no key twice
spread_draft : List (Text × Field) → CustomerDraft
unfolding empty_customer_draft field_or
spread_draft fs = record {
  full_name = field_or [] (text "fullName") fs;
  mobile = field_or [] (text "mobile") fs;
  address = field_or [] (text "address") fs;
  postal_code = field_or [] (text "postalCode") fs;
  note = field_or [] (text "note") fs;
}

draft_of : Parsed → CustomerDraft
unfolding spread_draft empty_customer_draft
draft_of unparsable = empty_customer_draft
draft_of null = empty_customer_draft
draft_of (fields fs) = if all is_string fs then spread_draft fs else empty_customer_draft

-- `none` is a storage that throws; an absent key reads as `null`.
unfoldable pub read_customer_draft : Option Parsed → CustomerDraft
unfolding draft_of
read_customer_draft none = empty_customer_draft
read_customer_draft (some p) = draft_of p

-- The fields of `JSON.stringify(draft)`, as the pages store a draft.
unfoldable pub draft_fields : CustomerDraft → List (Text × Field)
draft_fields d =
    (text "fullName", string d.full_name)
    ∷ (text "mobile", string d.mobile)
    ∷ (text "address", string d.address)
    ∷ (text "postalCode", string d.postal_code)
    ∷ (text "note", string d.note)
    ∷ []

-- A stored draft is read back as it was.
pub read_customer_draft-draft_fields :
    (d : CustomerDraft) → read_customer_draft (some (fields (draft_fields d))) ≡ d
unfolding read_customer_draft draft_fields text text_eq
read_customer_draft-draft_fields d = refl

-- What is stored cannot make a draft fail: a storage that throws, a text that is no JSON, `null`
-- and an object with a field that is no string all give the empty draft.
pub read_customer_draft_bad :
    (before after : List (Text × Field)) (k : Text)
    → (read_customer_draft none ≡ empty_customer_draft)
      × (read_customer_draft (some unparsable) ≡ empty_customer_draft)
      × (read_customer_draft (some null) ≡ empty_customer_draft)
      × (read_customer_draft (some (fields (before ++ (k, not_string) ∷ after)))
          ≡ empty_customer_draft)
unfolding read_customer_draft
read_customer_draft_bad before after k = (refl, refl, refl, rw (not_all before))
  where
    not_all : (xs : List (Text × Field)) → all is_string (xs ++ (k, not_string) ∷ after) ≡ false
    not_all [] = refl
    not_all ((_, string _) ∷ xs) = not_all xs
    not_all ((_, not_string) ∷ xs) = refl

unfoldable pub channel_text : SalesChannel → Text
channel_text instagram = text "instagram"
channel_text whatsapp = text "whatsapp"
channel_text telegram = text "telegram"
channel_text bale = text "bale"
channel_text other = text "other"

unfoldable pub sales_channels : List SalesChannel
sales_channels = instagram ∷ whatsapp ∷ telegram ∷ bale ∷ other ∷ []

-- The channel that a stored text names, by `salesChannels.includes`.
channel_named : List SalesChannel → Text → SalesChannel
channel_named [] value = instagram
channel_named (c ∷ cs) value = if text_eq (channel_text c) value then c else channel_named cs value

-- What the storage holds under the key: `none` inside is an absent key.
unfoldable pub read_last_sales_channel : Option (Option Text) → SalesChannel
unfolding channel_named sales_channels
read_last_sales_channel none = instagram
read_last_sales_channel (some none) = instagram
read_last_sales_channel (some (some value)) = channel_named sales_channels value

-- `rememberSalesChannel`: `works` tells whether `setItem` succeeds.
pub remember_sales_channel : Bool → SalesChannel → Option (Option Text) → Option (Option Text)
remember_sales_channel true value stored = some (some (channel_text value))
remember_sales_channel false value stored = stored

-- The last channel comes back, and where it cannot be stored nothing changes.
pub read_last_sales_channel-remember_sales_channel :
    (c : SalesChannel) (stored : Option (Option Text))
    → (read_last_sales_channel (remember_sales_channel true c stored) ≡ c)
      × (read_last_sales_channel (remember_sales_channel false c stored)
          ≡ read_last_sales_channel stored)
unfolding read_last_sales_channel remember_sales_channel channel_text text text_eq
read_last_sales_channel-remember_sales_channel instagram stored = (refl, refl)
read_last_sales_channel-remember_sales_channel whatsapp stored = (refl, refl)
read_last_sales_channel-remember_sales_channel telegram stored = (refl, refl)
read_last_sales_channel-remember_sales_channel bale stored = (refl, refl)
read_last_sales_channel-remember_sales_channel other stored = (refl, refl)
