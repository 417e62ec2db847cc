-- ===== src/Lib.antt =====
-- The web application of Radif, by which a shop on Instagram or WhatsApp makes orders, sends each
-- customer a link, takes the customer's details and payment receipts, and follows the orders.
--
-- The program has a server (Go, not modelled) and a web application (web/src), which is modelled
-- here. The application is one page at a time over a session: web/src/App.tsx holds the session and
-- chooses between the landing page, a customer's order, the login and the pages of a shop;
-- web/src/AdminApp.tsx holds the selected shop. Every page keeps its own state, calls the server by
-- `api` of web/src/shared.ts, and shares digits, messages, storage and identifiers with the others.
--
-- Files:
--   Prelude: names of the libraries, texts as lists of UTF-16 units, decimal numerals, list lemmas.
--   Shared: web/src/shared.ts. Types has the records, Api has ApiError, pilotFailureReason,
--     sendPilotEvent and api, Effects reads lists of effects, Digits has normalizeDigits and
--     normalizeIranianMobile, Storage has readCustomerDraft and the last sales channel, RandomId has
--     randomID, Dates has isWorkingDay, addWorkingDays and deliveryTiming, Ages has relativeAge,
--     Statuses and Channels have the labels of the statuses and of the sales channels, Share and
--     Templates have orderShareMessage, Drawing has the elements that a page draws, Handled what its
--     controls can set off, Groups has formatCardNumber and formatIBAN of the pages, Messages and Labels
--     have the messages that the pages show.
--   Components: web/src/components.tsx. ProductChoices, ReceiptPicker and CopyButton;
--     ProductChoices/Quantities compares the list of items with a basket, a function from products. View, here
--     and below, has what is drawn; Offers, Ways and Waiting have which buttons and links can be used.
--   CreateOrder: web/src/pages/CreateOrderPage.tsx. State and Fields have the state and the handlers
--     of the fields, Submit has submit, saveDeliveryDate and the copies of the message.
--   PublicOrder: web/src/pages/PublicOrderPage.tsx. State has the loading and the draft, Submit has
--     submitDetails, submitFinalReceipt and supportClicked, Payment decides which payment is asked for,
--     View what is told of it, Page has what is drawn.
--   AdminOrder: web/src/pages/AdminOrderPage.tsx. Save has saveChanges and saveCustomer, Payment has
--     the link, the final payment and the messages, Fields the plain fields, Calls all events of the
--     page with the calls on their way.
--   HistoricalOrder: web/src/pages/HistoricalOrderPage.tsx. State has updateItems, openReview and
--     reset, Fields has loadProducts and the plain fields, Submit has submit, Invariant all events.
--   Orders: web/src/pages/OrdersPage.tsx. Filters has the address and the query, Sorting and
--     Controls what the page's controls do to it, Listing has the pages of the list and their request
--     numbers, Stale and Pages all events of the list, Rows what a row and the sections
--     show, Page what is drawn and where its controls lead, Empty the notice of an empty list.
--   DeliveryDate: web/src/DeliveryDateSelect.tsx.
--   Products: web/src/pages/ProductsPage.tsx (List) and web/src/pages/ProductFormPage.tsx
--     (Form, ImageEditor with its object URLs in Urls, and Crop, which is both together).
--   Report: web/src/pages/ReportPage.tsx. View has what is drawn.
--   Login: web/src/pages/LoginPage.tsx. Steps has the tasks, Fields the plain fields, Tasks all events
--     of the page with the task that waits.
--   Account: web/src/pages/AccountPage.tsx. Cards, Settings and Fields have the handlers, Replies all
--     events of the page with the shop that the answers make.
--   App: web/src/App.tsx (Session) and web/src/AdminApp.tsx (Shops, Gate, and Frame, which is
--     what is drawn around a page). Busy puts the frame and the pages of a new order and of an order made
--     elsewhere together: a page tells the frame by onBusyChange that it is busy, Pending has what their
--     events make of their pending mark, Lock when the frame is locked, and Unlock what it waits for.
--   Examples: the theorems at concrete inputs.
--
-- How the code is read: a page's state is a record with a field for each `useState` and `useRef`
-- that its handlers read or write. A handler is a function from the state to the next state and the
-- list of its effects, in their order. A handler that awaits the server is given how the call settles
-- and a function `meanwhile`, what other events make of the state before the answer comes; what it
-- captured when it was made is read from the state at its start. Where such a handler waits again after
-- the answer, for a copy, that is an event of its own for a new order, with the parts show_created and
-- end_submit, and one step with the answer in settle and for the request of a final payment. What a browser or a library gives
-- (the clipboard, the storage, a decoded picture, the formats of Intl, the clock, random bytes, the
-- day of today) is an argument.
--
-- Bounds: numbers are natural numbers, compared with the largest safe integer where the source
-- calls `Number.isSafeInteger`; `Number` is modelled on texts of digits, which is what the form of a
-- new order holds as long as its amount is a safe integer. Beyond that the source computes with rounded
-- numbers, and its `String` writes exponents from 10 ^ 21 on; neither is modelled. A day is its number, counted from 1970-01-01; the texts of days that the working
-- days are computed from and to are read by `Date`. The search for a working day runs on fuel, which
-- counts its rounds; how many are enough is among the results. All other functions are structural
-- recursions.
--
-- Where events come in any order, they are the constructors of a data type `Step` between states, and
-- what holds after all of them is shown by induction on `Reach`. An event has the condition under which
-- the page draws the control that makes it. Calls on their way, and the object URLs that have not been
-- revoked, are parts of such a state.
--
-- What a page draws is a list of elements: the values that are told and the notices, in their order,
-- and the controls, each with its handler, its label and whether it is disabled. The nesting of the
-- elements is left out. Where a page is drawn, the handlers of its controls are a data type.
--
-- Not modelled: the server, the stylesheet classes, the icons, and those texts of the pages that are
-- always the same and no button's or link's, the landing page, the matching of addresses by the
-- router, the drawn calendar and cropper, the question of the browser before a pending page is left,
-- and a session storage that throws.
pub mod Prelude
pub mod Shared
pub mod Components
pub mod CreateOrder
pub mod PublicOrder
pub mod Account
pub mod AdminOrder
pub mod App
pub mod DeliveryDate
pub mod Examples
pub mod HistoricalOrder
pub mod Orders
pub mod Products
pub mod Report
pub mod Login
