-- ===== src/Shared/Types.antt =====
-- The data that the pages exchange with the server (web/src/shared.ts): one record for each
-- type, an optional field as an `Option`. A time or a date is the text that the server sends.
use radif.Prelude.{Text, ℕ, Bool, Option, List}

-- `"instagram" | "whatsapp"`
pub data SupportChannel : Type 0 where
  instagram whatsapp : SupportChannel

pub data SubscriptionState : Type 0 where
  trial paid inactive : SubscriptionState

pub record PaymentCard : Type 0 where
  pub id : ℕ
  pub card_number : Text
  pub iban : Text
  pub payment_instructions : Text
  pub active : Bool

pub record Shop : Type 0 where
  pub id : ℕ
  pub name : Text
  pub logo_path : Option Text
  pub short_description : Option Text
  pub instagram_username : Option Text
  pub whatsapp_number : Option Text
  pub support_channel : Option SupportChannel
  pub share_message_template : Option Text
  pub payment_cards : List PaymentCard
  pub subscription_state : SubscriptionState
  pub trial_ends_at : Option Text
  pub paid_through : Option Text
  pub trial_days_remaining : Option ℕ

pub data SalesChannel : Type 0 where
  instagram whatsapp telegram bale other : SalesChannel

pub record Admin : Type 0 where
  pub id : ℕ
  pub name : Text
  pub login : Text
  pub mobile : Option Text

pub record Me : Type 0 where
  pub admin : Admin
  pub shops : List Shop

pub record Product : Type 0 where
  pub id : ℕ
  pub name : Text
  pub image_path : Text
  pub default_price : ℕ
  pub short_description : Option Text
  pub active : Bool

pub record CustomerDraft : Type 0 where
  pub full_name : Text
  pub mobile : Text
  pub address : Text
  pub postal_code : Text
  pub note : Text

pub record CreatedOrder : Type 0 where
  pub id : ℕ
  pub order_code : Text
  pub customer_url : Text
  pub status : Text
  pub estimated_delivery_date : Text
  pub created_at : Text
  pub initial_payment_amount : Option ℕ
  pub final_payment_amount : Option ℕ

pub record PublicItem : Type 0 where
  pub name : Text
  pub image_path : Text
  pub quantity : ℕ

pub record PublicShop : Type 0 where
  pub name : Text
  pub logo_path : Option Text

pub record HistoryEntry : Type 0 where
  pub status : Text
  pub created_at : Text

pub record CustomerSummary : Type 0 where
  pub full_name : Text
  pub mobile : Text
  pub address_preview : Text
  pub postal_code_suffix : Text

pub record Support : Type 0 where
  pub channel : SupportChannel
  pub url : Text
  pub message : Text

pub record PublicOrder : Type 0 where
  pub order_code : Text
  pub shop : PublicShop
  pub items : List PublicItem
  pub amount : ℕ
  pub original_amount : Option ℕ
  pub initial_payment_amount : Option ℕ
  pub final_payment_amount : Option ℕ
  pub status : Text
  pub estimated_delivery_date : Text
  pub payment_card_number : Text
  pub payment_iban : Text
  pub payment_instructions : Text
  pub customer_submitted : Bool
  pub customer_submission_allowed : Bool
  pub receipt_uploaded : Bool
  pub final_payment_requested : Bool
  pub final_payment_card_number : Option Text
  pub final_payment_iban : Option Text
  pub final_payment_instructions : Option Text
  pub final_receipt_uploaded : Bool
  pub final_payment_confirmed : Bool
  pub shipment_tracking_code : Option Text
  pub updated_at : Text
  pub history : List HistoryEntry
  pub customer_summary : Option CustomerSummary
  pub support : Option Support

pub record OrderSummary : Type 0 where
  pub id : ℕ
  pub order_code : Text
  pub product_summary : Text
  pub customer_full_name : Option Text
  pub customer_submitted : Bool
  pub receipt_uploaded : Bool
  pub initial_payment_amount : Option ℕ
  pub final_payment_requested : Bool
  pub final_receipt_uploaded : Bool
  pub final_payment_confirmed : Bool
  pub has_tracking_code : Bool
  pub amount : ℕ
  pub status : Text
  pub estimated_delivery_date : Text
  pub created_at : Text
  pub updated_at : Text

pub record OrderShop : Type 0 where
  pub id : ℕ
  pub name : Text

pub record AdminItem : Type 0 where
  pub name : Text
  pub image_path : Text
  pub quantity : ℕ
  pub unit_price : ℕ

pub record AdminHistoryEntry : Type 0 where
  pub previous_status : Option Text
  pub new_status : Text
  pub changed_by_admin_name : Option Text
  pub created_at : Text

pub record AdminOrder : Type 0 where
  pub id : ℕ
  pub order_code : Text
  pub shop : OrderShop
  pub items : List AdminItem
  pub amount : ℕ
  pub initial_payment_amount : Option ℕ
  pub final_payment_amount : Option ℕ
  pub status : Text
  pub estimated_delivery_date : Text
  pub sales_channel : SalesChannel
  pub conversation_reference : Text
  pub internal_note : Text
  pub customer_full_name : Text
  pub customer_mobile : Text
  pub customer_address : Text
  pub customer_postal_code : Text
  pub customer_note : Text
  pub customer_submitted : Bool
  pub receipt_uploaded : Bool
  pub receipt_url : Option Text
  pub final_payment_requested : Bool
  pub final_payment_requested_at : Option Text
  pub final_payment_card_number : Text
  pub final_payment_iban : Text
  pub final_payment_instructions : Text
  pub final_receipt_uploaded : Bool
  pub final_receipt_url : Option Text
  pub final_payment_confirmed : Bool
  pub final_payment_confirmed_at : Option Text
  pub final_payment_confirmed_by_admin_name : Option Text
  pub shipment_tracking_code : Text
  pub customer_url : Text
  pub created_at : Text
  pub updated_at : Text
  pub customer_submitted_at : Option Text
  pub history : List AdminHistoryEntry
