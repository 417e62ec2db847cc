-- ===== src/Examples/Data.antt =====
-- The data of the examples.
use radif.Prelude.{text, decimal, true, false, none, some, [], ◌∷◌}
use radif.Shared.Types.{
  Shop, PaymentCard, Product, CustomerDraft, CreatedOrder, PublicOrder, AdminOrder, Me, paid,
}
use radif.Shared.Types.{SalesChannel}
use radif.Shared.Api.{File, answered, SignalReply}
use radif.Shared.Share.{Formats}

abbrev pub cup : Product
cup = record {
  id = 7;
  name = text "cup";
  image_path = text "/cup.webp";
  default_price = 250000;
  short_description = none;
  active = true;
}

abbrev pub bowl : Product
bowl = record cup { id = 9; name = text "bowl"; active = false }

abbrev pub card : PaymentCard
card = record {
  id = 3;
  card_number = text "6037991234567890";
  iban = text "IR1";
  payment_instructions = [];
  active = true;
}

abbrev pub second_card : PaymentCard
second_card = record card { id = 4; active = false }

abbrev pub gallery : Shop
gallery = record {
  id = 5;
  name = text "gallery";
  logo_path = none;
  short_description = none;
  instagram_username = none;
  whatsapp_number = none;
  support_channel = none;
  share_message_template = none;
  payment_cards = card ∷ second_card ∷ [];
  subscription_state = paid;
  trial_ends_at = none;
  paid_through = none;
  trial_days_remaining = none;
}

abbrev pub owner : Me
owner = record {
  admin = record { id = 1; name = text "owner"; login = text "owner"; mobile = none };
  shops = gallery ∷ record gallery { id = 6 } ∷ [];
}

abbrev pub draft : CustomerDraft
draft = record {
  full_name = text " Sara ";
  mobile = text "+98 912 345 6789";
  address = text "Tehran";
  postal_code = [];
  note = [];
}

abbrev pub picture : File
picture = record { name = text "receipt.jpg"; type = text "image/jpeg"; size = 4000000 }

abbrev pub created : CreatedOrder
created = record {
  id = 12;
  order_code = text "R-12";
  customer_url = text "https://radif.test/o/abc";
  status = text "waiting_info";
  estimated_delivery_date = text "2026-12-01";
  created_at = text "2026-11-20T10:00:00Z";
  initial_payment_amount = none;
  final_payment_amount = none;
}

abbrev pub public_order : PublicOrder
public_order = record {
  order_code = text "R-12";
  shop = record { name = text "gallery"; logo_path = none };
  items = [];
  amount = 500000;
  original_amount = none;
  initial_payment_amount = some 200000;
  final_payment_amount = some 300000;
  status = text "paid";
  estimated_delivery_date = text "2026-12-01";
  payment_card_number = text "6037991234567890";
  payment_iban = [];
  payment_instructions = [];
  customer_submitted = true;
  customer_submission_allowed = false;
  receipt_uploaded = true;
  final_payment_requested = true;
  final_payment_card_number = some (text "6037991234567890");
  final_payment_iban = none;
  final_payment_instructions = none;
  final_receipt_uploaded = false;
  final_payment_confirmed = false;
  shipment_tracking_code = none;
  updated_at = text "2026-11-20T10:00:00Z";
  history = [];
  customer_summary = none;
  support = none;
}

abbrev pub admin_order : AdminOrder
admin_order = record {
  id = 12;
  order_code = text "R-12";
  shop = record { id = 5; name = text "gallery" };
  items = [];
  amount = 500000;
  initial_payment_amount = some 200000;
  final_payment_amount = some 300000;
  status = text "paid";
  estimated_delivery_date = text "2026-12-01";
  sales_channel = SalesChannel.instagram;
  conversation_reference = [];
  internal_note = [];
  customer_full_name = text "Sara";
  customer_mobile = text "09123456789";
  customer_address = text "Tehran";
  customer_postal_code = [];
  customer_note = [];
  customer_submitted = true;
  receipt_uploaded = true;
  receipt_url = none;
  final_payment_requested = false;
  final_payment_requested_at = none;
  final_payment_card_number = [];
  final_payment_iban = [];
  final_payment_instructions = [];
  final_receipt_uploaded = false;
  final_receipt_url = none;
  final_payment_confirmed = false;
  final_payment_confirmed_at = none;
  final_payment_confirmed_by_admin_name = none;
  shipment_tracking_code = [];
  customer_url = text "https://radif.test/o/abc";
  created_at = text "2026-11-20T10:00:00Z";
  updated_at = text "2026-11-20T10:00:00Z";
  customer_submitted_at = none;
  history = [];
}

abbrev pub formats : Formats
formats = record { persian_number = decimal; persian_date = λ date. date }

abbrev pub signal : SignalReply
signal = answered 204
