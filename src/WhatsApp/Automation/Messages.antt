-- ===== src/WhatsApp/Automation/Messages.antt =====
-- whatsapp-automation-flow.ts and whatsapp.constants.ts: the texts that the automation sends.
use lume_tenant_api.Base.{String, [], ◌∷◌}
use lume_tenant_api.Base.Text.{join_lines}

unfoldable pub unsupported_message_kind_reply_text : String
unsupported_message_kind_reply_text =
    "Ainda não consigo interpretar esse tipo de arquivo. Por favor, envie sua resposta em texto."

unfoldable pub main_menu : String
unfolding join_lines
main_menu = join_lines (
    "Olá! Sou a Milena, assistente virtual da Milenium." ∷ "" ∷ "1 - Comercial"
    ∷ "2 - Compras (Fornecedores)" ∷ "3 - Controladoria" ∷ "4 - Departamento Pessoal"
    ∷ "5 - Financeiro" ∷ "6 - Gerência" ∷ "7 - Manutenção" ∷ "8 - Monitoramento" ∷ "9 - Operacional"
    ∷ "" ∷ "Responda com o número da opção desejada." ∷ [])

unfoldable pub department_contact_prompt : String
department_contact_prompt =
    "Para prosseguir, informe seu nome e o motivo do seu contato em uma única mensagem"

unfoldable pub commercial_menu : String
unfolding join_lines
commercial_menu = join_lines (
    "Menu Comercial" ∷ "" ∷ "Informe a opção desejada:"
    ∷ "1 - Solicitar orçamento de fretamento eventual"
    ∷ "2 - Solicitar orçamento de fretamento contínuo" ∷ "3 - Dúvida ou alteração"
    ∷ "4 - Acompanhamento" ∷ "5 - Documentos" ∷ "6 - Outros assuntos comerciais"
    ∷ "0 - Menu principal" ∷ [])

unfoldable pub commercial_follow_up_menu : String
unfolding join_lines
commercial_follow_up_menu = join_lines (
    "Olá sou a Milena, assistente virtual da Milenium Transportes e identifiquei que você tem uma solicitação em andamento, por favor, responda com a opção desejada:"
    ∷ "" ∷ "Informe a opção desejada:" ∷ "1. Verificar status do orçamento"
    ∷ "2. Alterar dados do orçamento" ∷ "3. Enviar documentação" ∷ "4. Acompanhar viagem"
    ∷ "0. Voltar para menu inicial" ∷ [])

unfoldable pub quote_confirmation_message : String
quote_confirmation_message =
    "Orçamento confirmado. Encaminhei sua solicitação ao time Comercial. No próximo contato, você receberá o menu de acompanhamento da solicitação."

unfoldable pub follow_up_handoff_message : String
follow_up_handoff_message =
    "Seu atendimento foi redirecionado para o time Comercial. Um especialista irá entrar em contato em breve."

unfoldable pub invalid_follow_up_handoff_message : String
invalid_follow_up_handoff_message =
    "Não consegui identificar uma das opções disponíveis. Seu atendimento foi redirecionado para o time Comercial e um especialista irá entrar em contato em breve."

unfoldable pub processable_text_required_message : String
processable_text_required_message =
    "No MVP eu consigo processar texto, áudio já transcrito e texto extraído de imagem ou PDF. Por favor, descreva o conteúdo em uma mensagem de texto."
